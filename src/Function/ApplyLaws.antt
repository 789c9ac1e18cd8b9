-- ===== src/Function/ApplyLaws.antt =====
-- What `PartiallyApplied` of libjarl/function.cpp does with its slots.
use mathlib.Core.List.{append_assoc}
use native.Mathlib.Nat.{zero-add, suc-add}
use jarl.Common.{
  ℕ, zero, suc, ◌+◌, ◌-◌, ◌<◌, ◌≡◌, ◌≢◌, refl, sym, ap, ◌∙◌, true, false, List, [], ◌∷◌, ◌++◌, ◌==◌,
  ltb-true, length, length-append, arith, All, ==_iff, Bool-cases, inl, inr,
}
use jarl.Common.Outcome.{Outcome, ok, fault, bind, Returns, returns}
use jarl.Value.Data.{TypedValue, none}
use jarl.Function.Slots.{
  IsReady, IsValue, Fills, bind_slot-Fills, empties-append, Fills-empties, Fills-length,
  empties-values, empties-empty_slots,
}
use jarl.Function.Apply.{
  PartiallyApplied, empty_slots, new, bind_slot, apply, put_at, capture_from, capture,
}

-- A partial application with room for the value at the place takes it there, and then has one empty slot less.
pub apply-Fills :
    (v : TypedValue) (n : ℕ) (p : PartiallyApplied)
    → IsReady p
    → IsValue v
    → n < p.nargs
    → Returns (λ q. IsReady q × (p.nargs ≡ suc q.nargs) × Fills v n p.args q.args) (apply v n p)
unfolding apply
apply-Fills v n p r k h =
    let f = bind_slot-Fills v n p.args (omega (arith, r.counted)) in
    rw (ltb-true 0 p.nargs (omega arith)) (
      returns (
        record {
          slots = Fills-length f ∙ r.slots;
          counted = omega (arith, Fills-empties k f, r.counted);
        },
        omega arith,
        f,
      ))

put_at-append :
    (v o : TypedValue) (pre old : List TypedValue)
    → put_at (length pre) v (pre ++ (o ∷ old)) ≡ ok (pre ++ (v ∷ old))
unfolding put_at
put_at-append v o [] old = refl
put_at-append v o (p ∷ pre) old = rw (put_at-append v o pre old) refl

capture_from-append :
    (vals pre old : List TypedValue)
    → length old ≡ length vals
    → capture_from (length pre) vals (pre ++ old) ≡ ok (pre ++ vals)
unfolding capture_from
capture_from-append [] pre [] h = refl
capture_from-append [] pre (o ∷ old) h = absurd (omega arith)
capture_from-append (v ∷ vals) pre [] h = absurd (omega arith)
capture_from-append (v ∷ vals) pre (o ∷ old) h =
    let ih = capture_from-append vals (pre ++ (v ∷ [])) old (omega arith) in
    let size : length (pre ++ (v ∷ [])) ≡ suc (length pre) =
      omega (arith, length-append pre (v ∷ [])) in
    rw (put_at-append v o pre old)
      (rw (size, append_assoc pre (v ∷ []) old, append_assoc pre (v ∷ []) vals) at ih)

empty_slots-append : (n m : ℕ) → empty_slots (n + m) ≡ empty_slots n ++ empty_slots m
unfolding empty_slots
empty_slots-append zero m = rw zero-add refl
empty_slots-append (suc n) m =
    rw suc-add (ap (λ (l : List TypedValue). none ∷ l) (empty_slots-append n m))

length-empty_slots : (n : ℕ) → length (empty_slots n) ≡ n
unfolding empty_slots
length-empty_slots zero = refl
length-empty_slots (suc n) = omega (arith, length-empty_slots n)

bind_slot-first :
    (v : TypedValue) (filled slots : List TypedValue)
    → All IsValue filled
    → bind_slot v 0 (filled ++ (none ∷ slots)) ≡ filled ++ (v ∷ slots)
unfolding bind_slot
bind_slot-first v [] slots a = refl
bind_slot-first v (f ∷ filled) slots (h, a) = rw (h, bind_slot-first v filled slots a) refl

-- A call of a closure, one argument after another, each for the first empty slot.
unfoldable pub apply_all : List TypedValue → PartiallyApplied → Outcome PartiallyApplied
apply_all [] p = ok p
apply_all (v ∷ vs) p = bind (apply v 0 p) (λ q. apply_all vs q)

-- What `capture` gives: with the right number of values the arguments' slots are empty.
pub data Capturing (arguments captures : ℕ) (vals : List TypedValue)
    : Outcome PartiallyApplied → Type 0 where
  taken :
      {p : PartiallyApplied}
      → length vals ≡ captures
      → p.args ≡ empty_slots arguments ++ vals
      → IsReady p
      → p.nargs ≡ arguments
      → Capturing arguments captures vals (ok p)
  refused : length vals ≢ captures → Capturing arguments captures vals fault

capture_from-slots :
    (arguments captures : ℕ) (vals : List TypedValue)
    → length vals ≡ captures
    → capture_from arguments vals (empty_slots (arguments + captures))
      ≡ ok (empty_slots arguments ++ vals)
capture_from-slots arguments captures vals h =
    let e =
      capture_from-append vals (empty_slots arguments) (empty_slots captures)
        (omega (arith, length-empty_slots captures)) in
    rw (length-empty_slots arguments, sym (empty_slots-append arguments captures)) at e

abbrev captured : ℕ → ℕ → List TypedValue → PartiallyApplied
captured arguments captures vals = record {
  arguments = arguments;
  captures = captures;
  args = empty_slots arguments ++ vals;
  nargs = arguments;
}

==_same : (n m : ℕ) → n ≡ m → (n == m) ≡ true
==_same n m h = ground arith

ne-of : {n m : ℕ} → n ≡ m → (n == m) ≢ false
ne-of h k = ground arith

capture-same :
    (arguments captures : ℕ) (vals : List TypedValue)
    → length vals ≡ captures
    → capture vals (new arguments captures) ≡ ok (captured arguments captures vals)
unfolding capture new
capture-same arguments captures vals h =
    rw (==_same (length vals) captures h) (rw (capture_from-slots arguments captures vals h) refl)

-- A new partial application takes exactly as many captured values as the function has captures: it
-- then has them in the slots after the arguments', and is ready for every argument. With any other
-- number the assertion fails.
pub capture-new :
    (arguments captures : ℕ) (vals : List TypedValue)
    → All IsValue vals
    → Capturing arguments captures vals (capture vals (new arguments captures))
unfolding capture new
capture-new arguments captures vals a = elim (Bool-cases (length vals == captures)) [
  | inl same ↦
      let size = (==_iff (length vals) captures).0 same in
      rw (capture-same arguments captures vals size) (
        taken size refl
          (record {
            slots = omega (
              arith,
              size,
              length-append (empty_slots arguments) vals,
              length-empty_slots arguments,
            );
            counted = omega (
              arith,
              empties-append (empty_slots arguments) vals,
              empties-empty_slots arguments,
              empties-values vals a,
            );
          })
          refl)
  | inr other ↦ refuse other
]
  where
    refuse :
        (length vals == captures) ≡ false
        → Capturing arguments captures vals (capture vals (new arguments captures))
    refuse other = rw other (refused (λ e. ne-of e other))

abbrev applied : TypedValue → PartiallyApplied → PartiallyApplied
applied v p = record {
  arguments = p.arguments;
  captures = p.captures;
  args = bind_slot v 0 p.args;
  nargs = p.nargs - 1;
}

apply-applied :
    (v : TypedValue) (p : PartiallyApplied) → 0 < p.nargs → apply v 0 p ≡ ok (applied v p)
unfolding apply
apply-applied v p h = rw (ltb-true 0 p.nargs h) refl

All-push :
    (vals : List TypedValue) (v : TypedValue)
    → All IsValue vals
    → IsValue v
    → All IsValue (vals ++ (v ∷ []))
All-push [] v a h = (h, tt)
All-push (w ∷ vals) v (k, a) h = (k, All-push vals v a h)

-- The loop of the call: `filled` are the arguments so far.
apply_all-filled :
    (vals filled caps : List TypedValue) (p : PartiallyApplied)
    → All IsValue vals
    → All IsValue filled
    → p.args ≡ filled ++ (empty_slots (length vals) ++ caps)
    → p.nargs ≡ length vals
    → Returns (λ q. (q.args ≡ filled ++ (vals ++ caps)) × (q.nargs ≡ 0)) (apply_all vals p)
unfolding apply_all empty_slots
apply_all-filled [] filled caps p a b e n =
    returns (e ∙ ap (λ (l : List TypedValue). filled ++ l) no_slots, n)
  where
    no_slots : empty_slots 0 ++ caps ≡ caps
    no_slots = refl
apply_all-filled (v ∷ vals) filled caps p (h, a) b e n =
    let rest : List TypedValue = empty_slots (length vals) ++ caps in
    let q : PartiallyApplied = applied v p in
    let next = ap (λ (l : List TypedValue). bind_slot v 0 l) e ∙ bind_slot-first v filled rest b in
    let ih =
      apply_all-filled vals (filled ++ (v ∷ [])) caps q a (All-push filled v b h)
        (next ∙ sym (append_assoc filled (v ∷ []) rest)) (omega arith) in
    rw (apply-applied v p (omega arith)) (rw (append_assoc filled (v ∷ []) (vals ++ caps)) at ih)

-- A closure that is given as many arguments as its function has, one after another, has them in
-- their order before the captured values, and none is missing.
pub apply_all-capture :
    (vals caps : List TypedValue)
    → All IsValue vals
    → All IsValue caps
    → Returns
        (λ q. (q.args ≡ vals ++ caps) × (q.nargs ≡ 0))
        (bind (capture caps (new (length vals) (length caps))) (λ p. apply_all vals p))
apply_all-capture vals caps a b =
    rw (capture-same (length vals) (length caps) caps refl)
      (apply_all-filled vals [] caps (captured (length vals) (length caps) caps) a tt refl refl)
