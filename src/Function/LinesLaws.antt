-- ===== src/Function/LinesLaws.antt =====
-- `Function::getLine` of libjarl/function.cpp against the lines that the words were written from.
use mathlib.Core.Path.{subst}
use mathlib.Core.List.{append_assoc, append-nil}
use jarl.Common.{
  ℕ, suc, ◌≤◌, ◌<◌, ◌≡◌, refl, sym, ap, ◌∙◌, List, [], ◌∷◌, ◌++◌, some, ◌==◌, length-push,
  get_elem?-push_at, get_elem?-push_below, length, get_elem?, arith, ◌⊎◌, Bool-cases, inl, inr,
  ==_iff,
}
use jarl.Function.Positions.{
  lookup, find_line-lookup, UpTo, UpTo-weaken, UpTo-push, lookup-UpTo, find_line-UpTo, lookup-push,
  last_of-push, last_of-UpTo,
}
use jarl.Function.Lines.{
  CodePosition, Positions, back, get_line, ThreadingContext, generate_start, push_back,
  put_instruction, Word, put_all,
}

abbrev pub lines : List Word → List ℕ
lines [] = []
lines (w ∷ ws) = w.line ∷ lines ws

abbrev find_in : Positions → ℕ → ℕ
find_in ps i = lookup ps.head.first (ps.head ∷ ps.tail) i

-- The positions give the line of every word that was written.
abbrev Finds : Positions → List ℕ → Type 0
Finds ps done = (i : ℕ) → i < length done → get_elem? done i ≡ some (find_in ps i)

abbrev Bounded : Positions → ℕ → Type 0
Bounded ps n = UpTo n (ps.head ∷ ps.tail)

record Covers (c : ThreadingContext) (done : List ℕ) : Type 0 where
  sizes : length c.code ≡ length done
  bounded : Bounded c.code_positions (length done)
  ordered : Bounded c.code_positions (back c.code_positions).second
  found : Finds c.code_positions done

below_or_at : (i n : ℕ) → i < suc n → (i < n) ⊎ (i ≡ n)
below_or_at i n h = omega arith

-- It is enough to look at the words before and at the new one.
Finds-push :
    (ps : Positions) (done : List ℕ) (line : ℕ)
    → Finds ps done
    → find_in ps (length done) ≡ line
    → Finds ps (done ++ (line ∷ []))
Finds-push ps done line f e i h =
    elim (below_or_at i (length done) (rw (sym (length-push done line)) h)) [
      | inl below ↦ get_elem?-push_below done line i below ∙ f i below
      | inr same ↦ rw same (get_elem?-push_at done line ∙ ap (λ (x : ℕ). some x) (sym e))
    ]

-- A word with the line of the last entry.
Finds-same :
    (ps : Positions) (done : List ℕ)
    → Bounded ps (length done)
    → Finds ps done
    → Finds ps (done ++ ((back ps).first ∷ []))
Finds-same ps done b f =
    Finds-push ps done _ f (lookup-UpTo (length done) ps.head.first ps.head ps.tail b)

-- A word with an entry of its own.
Finds-new :
    (ps : Positions) (done : List ℕ) (q : CodePosition)
    → q.second ≡ length done
    → Bounded ps (length done)
    → Finds ps done
    → Finds (push_back ps q) (done ++ (q.first ∷ []))
Finds-new ps done q e b f =
    Finds-push (push_back ps q) done _
      (λ i h.
        f i h
        ∙ ap (λ (x : ℕ). some x) (sym (lookup-push i ps.head.first (ps.head ∷ ps.tail) q (rw e h))))
      (lookup-UpTo (length done) ps.head.first ps.head (ps.tail ++ (q ∷ []))
          (UpTo-push (length done) (ps.head ∷ ps.tail) q b (omega (arith, e)))
        ∙ ap (λ (p : CodePosition). p.first) (last_of-push ps.head q ps.tail))

abbrev current : ThreadingContext → ℕ
current c = (back c.code_positions).first

-- The words have one more, and the line of the last entry is that of the word.
abbrev Extends : ThreadingContext → List ℕ → ℕ → ThreadingContext → Type 0
Extends c done line d = Covers d (done ++ (line ∷ [])) × (current d ≡ line)

-- A context with one more word, of which the positions are as they were or have a new entry.
abbrev same_line : ℕ → ThreadingContext → ThreadingContext
same_line op c = record { code = c.code ++ (op ∷ []); code_positions = c.code_positions }

abbrev new_line : ℕ → ℕ → ThreadingContext → ThreadingContext
new_line op pos c = record {
  code = c.code ++ (op ∷ []);
  code_positions = push_back c.code_positions (record { first = pos; second = length c.code });
}

same_line-Extends :
    (op : ℕ) (c : ThreadingContext) (done : List ℕ)
    → Covers c done
    → Extends c done (current c) (same_line op c)
same_line-Extends op c done v = (
  record {
    sizes = omega (arith, v.sizes, length-push c.code op, length-push done (current c));
    bounded =
        UpTo-weaken (length done) _ (c.code_positions.head ∷ c.code_positions.tail)
          (omega (arith, length-push done (current c))) v.bounded;
    ordered = v.ordered;
    found = Finds-same c.code_positions done v.bounded v.found;
  },
  refl,
)

new_line-Extends :
    (op pos : ℕ) (c : ThreadingContext) (done : List ℕ)
    → Covers c done
    → Extends c done pos (new_line op pos c)
new_line-Extends op pos c done v =
    let q : CodePosition = record { first = pos; second = length c.code } in
    (
      record {
        sizes = omega (arith, v.sizes, length-push c.code op, length-push done pos);
        bounded =
            UpTo-weaken (length done) _
              ((c.code_positions.head ∷ c.code_positions.tail) ++ (q ∷ []))
              (omega (arith, length-push done pos))
              (UpTo-push (length done) (c.code_positions.head ∷ c.code_positions.tail) q v.bounded
                (omega (arith, v.sizes)));
        ordered =
            subst
              (λ (p : CodePosition).
                UpTo p.second ((c.code_positions.head ∷ c.code_positions.tail) ++ (q ∷ [])))
              (sym (last_of-push c.code_positions.head q c.code_positions.tail))
              (UpTo-push (length c.code) (c.code_positions.head ∷ c.code_positions.tail) q
                (UpTo-weaken (length done) (length c.code)
                  (c.code_positions.head ∷ c.code_positions.tail) (omega (arith, v.sizes))
                  v.bounded)
                (omega arith));
        found = Finds-new c.code_positions done q v.sizes v.bounded v.found;
      },
      ap (λ (p : CodePosition). p.first)
          (last_of-push c.code_positions.head q c.code_positions.tail),
    )

put_instruction-Extends :
    (op pos : ℕ) (c : ThreadingContext) (done : List ℕ)
    → Covers c done
    → Extends c done pos (put_instruction op pos c)
unfolding put_instruction
put_instruction-Extends op pos c done v = elim (Bool-cases (current c == pos)) [
  | inl same ↦ rw same (
      subst (λ (l : ℕ). Extends c done l (same_line op c)) ((==_iff _ _).0 same)
        (same_line-Extends op c done v))
  | inr other ↦ rw other (new_line-Extends op pos c done v)
]

put_all-Covers :
    (ws : List Word) (c : ThreadingContext) (done : List ℕ)
    → Covers c done
    → Covers (put_all ws c) (done ++ lines ws)
unfolding put_all
put_all-Covers [] c done v = rw append-nil v
put_all-Covers (w ∷ ws) c done v =
    let v' = (put_instruction-Extends w.op w.line c done v).0 in
    subst (λ (l : List ℕ). Covers (put_all ws (put_instruction w.op w.line c)) l)
      (append_assoc done (w.line ∷ []) (lines ws))
      (put_all-Covers ws (put_instruction w.op w.line c) (done ++ (w.line ∷ [])) v')

start-Covers : (pos : ℕ) → Covers (generate_start pos) []
unfolding generate_start
start-Covers pos = record {
  sizes = refl;
  bounded = (omega arith, tt);
  ordered = (omega arith, tt);
  found = λ i h. absurd (omega arith);
}

abbrev pub written : ℕ → List Word → Positions
written pos ws = (put_all ws (generate_start pos)).code_positions

written-Covers : (pos : ℕ) (ws : List Word) → Covers (put_all ws (generate_start pos)) (lines ws)
unfolding generate_start
written-Covers pos ws = put_all-Covers ws (generate_start pos) [] (start-Covers pos)

-- Of code written word by word, `getLine` gives the line from which the word at an offset was
-- written, for the offsets before that of the last entry of the list.
pub get_line-written :
    (pos : ℕ) (ws : List Word) (i : ℕ)
    → i < (back (written pos ws)).second
    → get_elem? (lines ws) i ≡ some (get_line (written pos ws) i)
unfolding get_line
get_line-written pos ws i h =
    let v = written-Covers pos ws in
    let ps : Positions = written pos ws in
    let inside = last_of-UpTo _ ps.head ps.tail v.bounded in
    v.found i (omega arith)
    ∙ ap (λ (l : ℕ). some l)
        (sym (find_line-lookup (back ps).second i ps.head.first ps.head ps.tail h))

-- Of code written word by word, `getLine` gives the offset of the last entry of the list, and not
-- a line, from that offset on.
pub get_line-last :
    (pos : ℕ) (ws : List Word) (i : ℕ)
    → (back (written pos ws)).second ≤ i
    → get_line (written pos ws) i ≡ (back (written pos ws)).second
unfolding get_line
get_line-last pos ws i k =
    let v = written-Covers pos ws in
    let ps : Positions = written pos ws in
    find_line-UpTo (back ps).second i ps.head.first (ps.head ∷ ps.tail)
      (UpTo-weaken (back ps).second i (ps.head ∷ ps.tail) k v.ordered)
