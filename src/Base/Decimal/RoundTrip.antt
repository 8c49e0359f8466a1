-- ===== src/Base/Decimal/RoundTrip.antt =====
-- Numbers that are read back from their decimal form.
use Prim.Native.Nat.{ℕ, zero, suc, ◌+◌, ◌/◌, ◌%◌, ◌^◌, ◌≤◌, ◌<◌}
use mathlib.Core.Path.{◌≡◌, refl, ap, ◌∙◌}
use mathlib.Core.Logic.{◌≢◌, inl, inr}
use mathlib.Core.Bool.{true, false}
use mathlib.Core.List.{[], ◌∷◌}
use native.Mathlib.Omega.{arith}
use exposure.Base.Tests.{◌==◌, Bool-cases}
use exposure.Base.Text.{Text}
use exposure.Base.Outcome.{ok}
use exposure.Base.Decimal.{
  emit, to_string, plus, digits, number, signed, skip_spaces, stoi, is_digit,
}

abbrev pub AllDigits : Text → Type 0
AllDigits [] = Unit {0}
AllDigits (c ∷ s) = (is_digit c ≡ true) × AllDigits s

last_digit : (n : ℕ) → is_digit (b'0' + n % 10) ≡ true
last_digit n = ground arith

emit-AllDigits : (fuel n : ℕ) (out : Text) → AllDigits out → AllDigits (emit fuel n out)
unfolding emit
emit-AllDigits zero n out h = h
emit-AllDigits (suc fuel) n out h = elim (Bool-cases (n == 0)) [
  | inl none_left ↦ rw none_left h
  | inr more ↦ rw more (emit-AllDigits fuel (n / 10) _ (last_digit n, h))
]

pub to_string-AllDigits : (n : ℕ) → AllDigits (to_string n)
unfolding to_string
to_string-AllDigits n = elim (Bool-cases (n == 0)) [
  | inl none_left ↦ rw none_left (refl, tt)
  | inr more ↦ rw more (emit-AllDigits n n [] tt)
]

emit-ne-nil : (fuel n : ℕ) (out : Text) → (out ≢ []) → emit fuel n out ≢ []
unfolding emit
emit-ne-nil zero n out h = h
emit-ne-nil (suc fuel) n out h = elim (Bool-cases (n == 0)) [
  | inl none_left ↦ rw none_left h
  | inr more ↦ rw more (emit-ne-nil fuel (n / 10) _ (λ e. cc))
]

digits_last : (n : ℕ) (out : Text) → digits ((b'0' + n % 10) ∷ out) (n / 10) ≡ digits out n
unfolding digits
digits_last n out = ground arith

digits-emit : (fuel n : ℕ) (out : Text) → n ≤ fuel → digits (emit fuel n out) 0 ≡ digits out n
unfolding emit
digits-emit zero n out h = let e : n ≡ 0 = omega arith in rw e
digits-emit (suc fuel) n out h = elim (Bool-cases (n == 0)) [
  | inl none_left ↦ let e : n ≡ 0 = ground arith in rw (none_left, e)
  | inr more ↦
      let small : n / 10 ≤ fuel = ground arith in
      rw more (digits-emit fuel (n / 10) _ small ∙ digits_last n out)
]

emit_some : (n : ℕ) → (n == 0) ≡ false → emit n n [] ≢ []
unfolding emit
emit_some zero h = cc
emit_some (suc n) h = rw h (emit-ne-nil n (suc n / 10) _ (λ e. cc))

pub to_string-ne-nil : (n : ℕ) → to_string n ≢ []
unfolding to_string
to_string-ne-nil n = elim (Bool-cases (n == 0)) [
  | inl none_left ↦ rw none_left (λ e. cc)
  | inr more ↦ rw more (emit_some n more)
]

digits-to_string : (n : ℕ) → digits (to_string n) 0 ≡ n
unfolding to_string digits
digits-to_string n = elim (Bool-cases (n == 0)) [
  | inl none_left ↦ let e : n ≡ 0 = ground arith in rw (none_left, e)
  | inr more ↦ rw more (digits-emit n n [] (omega arith))
]

stoi-digits :
    (s : Text) → AllDigits s → s ≢ [] → digits s 0 < 2 ^ 31 → stoi s ≡ ok (plus (digits s 0))
unfolding stoi
stoi-digits [] h some_digit small = absurd (some_digit refl)
stoi-digits (c ∷ s) h some_digit small =
    let digit : is_digit c ≡ true = h.0 in
    let not_space : skip_spaces (c ∷ s) ≡ c ∷ s = unfold skip_spaces in ground arith in
    rw not_space (unfold signed in unfold number in ground arith)

-- An `unsigned` below 2^31 is read back from its decimal form.
pub stoi-to_string : (n : ℕ) → n < 2 ^ 31 → stoi (to_string n) ≡ ok (plus n)
stoi-to_string n small =
    let e = digits-to_string n in
    stoi-digits (to_string n) (to_string-AllDigits n) (to_string-ne-nil n) (rw e small)
    ∙ ap (λ m. ok (plus m)) e
