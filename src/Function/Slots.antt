-- ===== src/Function/Slots.antt =====
-- The slots of a `PartiallyApplied` of libjarl/function.cpp, and how many of them are empty.
use jarl.Common.{
  ℕ, zero, suc, ◌+◌, ◌<◌, ◌≡◌, refl, sym, ap, ◌∙◌, true, false, List, [], ◌∷◌, ◌++◌, if◌then◌else◌,
  length, length-append, arith, All, Bool-cases, inl, inr,
}
use jarl.Value.Data.{TypedValue, none}
use jarl.Function.Apply.{PartiallyApplied, is_none, empty_slots, bind_slot}

unfoldable pub empties : List TypedValue → ℕ
empties [] = 0
empties (slot ∷ slots) = (if is_none slot then 1 else 0) + empties slots

-- `nargs` counts the slots that are still empty.
pub record IsReady (p : PartiallyApplied) : Type 0 where
  pub slots : length p.args ≡ p.arguments + p.captures
  pub counted : empties p.args ≡ p.nargs

abbrev pub IsValue : TypedValue → Type 0
IsValue v = is_none v ≡ false

-- The value `v` stands in `after` where an empty slot is in `before`, which has `n` empty slots
-- ahead of it, and the other slots are the same.
pub record Fills (v : TypedValue) (n : ℕ) (before after : List TypedValue) : Type 0 where
  pub ahead : List TypedValue
  pub behind : List TypedValue
  pub was : before ≡ ahead ++ (none ∷ behind)
  pub position : empties ahead ≡ n
  pub is : after ≡ ahead ++ (v ∷ behind)

pub is_none-eq : (s : TypedValue) → is_none s ≡ true → s ≡ none
is_none-eq s h = ground arith

pub empties-empty :
    (s : TypedValue) (slots : List TypedValue)
    → is_none s ≡ true
    → empties (s ∷ slots) ≡ suc (empties slots)
unfolding empties
empties-empty s slots e = ground arith

pub empties-full :
    (s : TypedValue) (slots : List TypedValue)
    → is_none s ≡ false
    → empties (s ∷ slots) ≡ empties slots
unfolding empties
empties-full s slots e = ground arith

pub Fills-skip :
    (v s : TypedValue) (n m : ℕ) (before after : List TypedValue)
    → ((l : List TypedValue) → empties l ≡ n → empties (s ∷ l) ≡ m)
    → Fills v n before after
    → Fills v m (s ∷ before) (s ∷ after)
Fills-skip v s n m before after c f = record {
  ahead = s ∷ f.ahead;
  behind = f.behind;
  was = ap (λ (l : List TypedValue). s ∷ l) f.was;
  position = c f.ahead f.position;
  is = ap (λ (l : List TypedValue). s ∷ l) f.is;
}

pub Fills-full :
    (v s : TypedValue) (n : ℕ) (before after : List TypedValue)
    → is_none s ≡ false
    → Fills v n before after
    → Fills v n (s ∷ before) (s ∷ after)
Fills-full v s n before after e f =
    Fills-skip v s n n before after (λ l h. empties-full s l e ∙ h) f

pub empties-nil : empties [] ≡ 0
unfolding empties
empties-nil = refl

pub bind_slot-Fills :
    (v : TypedValue) (n : ℕ) (slots : List TypedValue)
    → n < empties slots
    → Fills v n slots (bind_slot v n slots)
unfolding bind_slot
bind_slot-Fills v n [] h = absurd (omega (arith, empties-nil))
bind_slot-Fills v zero (s ∷ slots) h = elim (Bool-cases (is_none s)) [
  | inl e ↦
      let at : Fills v 0 (s ∷ slots) (v ∷ slots) = record {
        ahead = [];
        behind = slots;
        was = rw (is_none-eq s e) refl;
        position = empties-nil;
        is = refl;
      } in
      rw e at
  | inr e ↦
      let ih = bind_slot-Fills v zero slots (omega (arith, empties-full s slots e)) in
      rw e (Fills-full v s 0 slots (bind_slot v 0 slots) e ih)
]
bind_slot-Fills v (suc n) (s ∷ slots) h = elim (Bool-cases (is_none s)) [
  | inl e ↦
      let ih = bind_slot-Fills v n slots (omega (arith, empties-empty s slots e)) in
      rw e (
        Fills-skip v s n (suc n) slots (bind_slot v n slots)
          (λ l k. empties-empty s l e ∙ ap (λ (x : ℕ). suc x) k) ih)
  | inr e ↦
      let ih = bind_slot-Fills v (suc n) slots (omega (arith, empties-full s slots e)) in
      rw e (Fills-full v s (suc n) slots (bind_slot v (suc n) slots) e ih)
]

pub empties-append : (xs ys : List TypedValue) → empties (xs ++ ys) ≡ empties xs + empties ys
unfolding empties
empties-append [] ys = omega arith
empties-append (x ∷ xs) ys = omega (arith, empties-append xs ys)

pub empties-filled :
    (v : TypedValue) (ahead behind : List TypedValue)
    → IsValue v
    → empties (ahead ++ (none ∷ behind)) ≡ suc (empties (ahead ++ (v ∷ behind)))
empties-filled v ahead behind k = omega (
  arith,
  empties-append ahead (none ∷ behind),
  empties-append ahead (v ∷ behind),
  empties-full v behind k,
  empties-empty none behind refl,
)

pub Fills-empties :
    {v : TypedValue} {n : ℕ} {before after : List TypedValue}
    → IsValue v
    → Fills v n before after
    → empties before ≡ suc (empties after)
Fills-empties {v} k f =
    ap empties f.was
    ∙ empties-filled v f.ahead f.behind k
    ∙ ap (λ (l : List TypedValue). suc (empties l)) (sym f.is)

pub Fills-length :
    {v : TypedValue} {n : ℕ} {before after : List TypedValue}
    → Fills v n before after
    → length after ≡ length before
Fills-length {v} f =
    rw (f.was, f.is)
      (omega (arith, length-append f.ahead (v ∷ f.behind), length-append f.ahead (none ∷ f.behind)))

pub empties-values : (vals : List TypedValue) → All IsValue vals → empties vals ≡ 0
unfolding empties
empties-values [] a = refl
empties-values (v ∷ vals) (h, a) = rw h (omega (arith, empties-values vals a))

pub empties-empty_slots : (n : ℕ) → empties (empty_slots n) ≡ n
unfolding empties empty_slots
empties-empty_slots zero = refl
empties-empty_slots (suc n) = omega (arith, empties-empty_slots n)
