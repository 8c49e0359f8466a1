-- ===== src/Worker/Identity/Distinct.antt =====
-- What the identities and endpoints of src/worker.cpp tell apart.
use exposure.Base.{ℕ, ◌<◌, ◌^◌, ◌≡◌, refl, ap, sym, drop, subst, ◌∙◌, true, [], ◌∷◌, ◌++◌, arith}
use mathlib.Core.List.{append_assoc}
use exposure.Base.Text.{Text, bytes}
use exposure.Base.Decimal.{to_string, stoi, is_digit}
use exposure.Base.Decimal.RoundTrip.{AllDigits, to_string-AllDigits, stoi-to_string}
use exposure.Worker.Servers.{ServerDetails}
use exposure.Worker.Identity.{work_endpoint, communication_endpoint}

-- Digits have no colon among them.
AllDigits-no_colon : (xs ys : Text) → AllDigits (xs ++ 58 ∷ ys) → ⊥
AllDigits-no_colon [] ys h = let digit : is_digit 58 ≡ true = h.0 in cc
AllDigits-no_colon (x ∷ xs) ys h = AllDigits-no_colon xs ys h.1

-- The last colon ends the address.
last_colon :
    (xs ys ds es : Text)
    → AllDigits ds
    → AllDigits es
    → xs ++ 58 ∷ ds ≡ ys ++ 58 ∷ es
    → (xs ≡ ys) × (ds ≡ es)
last_colon [] [] ds es h k e = (refl, cc)
last_colon [] (y ∷ ys) ds es h k e =
    let tails : ds ≡ ys ++ 58 ∷ es = cc in
    absurd (AllDigits-no_colon ys es (subst AllDigits tails h))
last_colon (x ∷ xs) [] ds es h k e =
    let tails : es ≡ xs ++ 58 ∷ ds = cc in
    absurd (AllDigits-no_colon xs ds (subst AllDigits tails k))
last_colon (x ∷ xs) (y ∷ ys) ds es h k e =
    let tails : xs ++ 58 ∷ ds ≡ ys ++ 58 ∷ es = cc in
    let same = last_colon xs ys ds es h k tails in
    let first : x ≡ y = cc in let address : xs ≡ ys = same.0 in (cc, same.1)

to_string_inj : (m n : ℕ) → m < 2 ^ 16 → n < 2 ^ 16 → to_string m ≡ to_string n → m ≡ n
to_string_inj m n h k e =
    let left = stoi-to_string m (omega (arith, h)) in
    let right = stoi-to_string n (omega (arith, k)) in
    let both : stoi (to_string m) ≡ stoi (to_string n) = ap stoi e in cc

abbrev endpoint : Text → ℕ → Text
endpoint address port = bytes "tcp://" ++ address ++ bytes ":" ++ to_string port

endpoint_inj :
    (a b : Text) (m n : ℕ)
    → m < 2 ^ 16
    → n < 2 ^ 16
    → endpoint a m ≡ endpoint b n
    → (a ≡ b) × (m ≡ n)
endpoint_inj a b m n h k e =
    let plain : a ++ 58 ∷ to_string m ≡ b ++ 58 ∷ to_string n =
      sym (append_assoc a (58 ∷ []) _) ∙ ap (drop 6) e ∙ append_assoc b (58 ∷ []) _ in
    let same =
      last_colon a b (to_string m) (to_string n) (to_string-AllDigits m) (to_string-AllDigits n)
        plain in
    (same.0, to_string_inj m n h k same.1)

pub record HasPorts (d : ServerDetails) : Type 0 where
  pub work_fits : d.work_port < 2 ^ 16
  pub communication_fits : d.communication_port < 2 ^ 16

-- Two servers whose ports have 16 bits, with the same work endpoint and the same communication
-- endpoint, have the same address and the same ports.
pub endpoints_inj :
    (d e : ServerDetails)
    → HasPorts d
    → HasPorts e
    → work_endpoint d ≡ work_endpoint e
    → communication_endpoint d ≡ communication_endpoint e
    → (d.address ≡ e.address)
      × (d.work_port ≡ e.work_port)
      × (d.communication_port ≡ e.communication_port)
unfolding work_endpoint communication_endpoint
endpoints_inj d e p q work communication =
    let left = endpoint_inj d.address e.address _ _ p.work_fits q.work_fits work in
    let right =
      endpoint_inj d.address e.address _ _ p.communication_fits q.communication_fits
        communication in
    (left.0, left.1, right.1)
