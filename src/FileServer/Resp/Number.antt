-- ===== src/FileServer/Resp/Number.antt =====
-- Decimal numbers: what `snprintf` prints, parse_int reads.
use native.Mathlib.Nat.{pow-suc}
use ncsc210_g.Base.{
  Bool-cases, inl, inr, ℕ, zero, suc, ◌+◌, ◌*◌, ◌-◌, ◌/◌, ◌%◌, ◌^◌, ◌≤◌, ◌<◌, ◌≡◌, ◌≢◌, refl, List,
  [], ◌∷◌, ◌++◌, some, pos, length, length-append, ltb, if◌then◌else◌, arith, All,
}
use ncsc210_g.FileServer.Resp.{cstr, digits_value, parse_int}

-- The decimal digits of a number that has at most `fuel` of them.
pub decimal_digits : (fuel : ℕ) → ℕ → List ℕ
decimal_digits zero n = []
decimal_digits (suc fuel) n =
    let front = decimal_digits fuel (n / 10) in
    if ltb n 10 then (48 + n) ∷ [] else front ++ (48 + n % 10) ∷ []

-- Twenty digits are enough for 64 bits.
unfoldable pub decimal : ℕ → List ℕ
unfolding decimal_digits
decimal n = decimal_digits 20 n

abbrev pub IsDigit : ℕ → Type 0
IsDigit c = (48 ≤ c) × (c ≤ 57)

pub All-append {ℓ κ} :
    {A : Type ℓ} (P : A → Type κ) (xs ys : List A) → All P xs → All P ys → All P (xs ++ ys)
All-append P [] ys h k = k
All-append P (x ∷ xs) ys h k = (h.0, All-append P xs ys h.1 k)

decimal_digits-IsDigit : (fuel n : ℕ) → All IsDigit (decimal_digits fuel n)
unfolding decimal_digits
decimal_digits-IsDigit zero n = tt
decimal_digits-IsDigit (suc fuel) n =
    let front = decimal_digits-IsDigit fuel (n / 10) in
    let last : IsDigit (48 + n % 10) = omega arith in
    let both =
      All-append IsDigit (decimal_digits fuel (n / 10)) ((48 + n % 10) ∷ []) front (last, tt) in
    ground (arith, both)

length-decimal_digits : (fuel n : ℕ) → length (decimal_digits fuel n) ≤ fuel
unfolding decimal_digits
length-decimal_digits zero n = omega arith
length-decimal_digits (suc fuel) n = ground (
  arith,
  length-decimal_digits fuel (n / 10),
  length-append (decimal_digits fuel (n / 10)) ((48 + n % 10) ∷ []),
)

digits_value-snoc :
    (acc v d : ℕ) (cs : List ℕ)
    → digits_value acc cs ≡ some v
    → d < 10
    → digits_value acc (cs ++ (48 + d) ∷ []) ≡ some (v * 10 + d)
unfolding digits_value
digits_value-snoc acc v d [] h k = ground arith
digits_value-snoc acc v d (c ∷ cs) h k =
    ground (arith, digits_value-snoc (acc * 10 + (c - 48)) v d cs)

decimal_digits-suc :
    (fuel n : ℕ)
    → decimal_digits (suc fuel) n
      ≡ (if ltb n 10 then (48 + n) ∷ [] else decimal_digits fuel (n / 10) ++ (48 + n % 10) ∷ [])
unfolding decimal_digits
decimal_digits-suc fuel n = refl

digits_value-one : (n : ℕ) → n < 10 → digits_value 0 ((48 + n) ∷ []) ≡ some n
unfolding digits_value
digits_value-one n h = ground arith

pub digits_value-decimal_digits :
    (fuel n : ℕ) → n < 10 ^ suc fuel → digits_value 0 (decimal_digits (suc fuel) n) ≡ some n
digits_value-decimal_digits zero n h =
    rw (decimal_digits-suc zero n) (ground (arith, digits_value-one n))
digits_value-decimal_digits (suc fuel) n h =
    let ih = digits_value-decimal_digits fuel (n / 10) (omega (arith, pow-suc 10 (suc fuel))) in
    let more =
      digits_value-snoc 0 (n / 10) (n % 10) (decimal_digits (suc fuel) (n / 10)) ih (omega arith) in
    let value : n / 10 * 10 + n % 10 ≡ n = omega arith in
    rw (decimal_digits-suc (suc fuel) n) (elim (Bool-cases (ltb n 10)) [
      | inl small ↦ rw small (digits_value-one n (ground arith))
      | inr big ↦ rw big (rw value at more)
    ])

append-ne-nil : (xs : List ℕ) (y : ℕ) → xs ++ y ∷ [] ≢ []
append-ne-nil [] y h = cc
append-ne-nil (x ∷ xs) y h = cc

decimal_digits-ne-nil : (fuel n : ℕ) → decimal_digits (suc fuel) n ≢ []
decimal_digits-ne-nil fuel n h =
    ground
      (arith, decimal_digits-suc fuel n, append-ne-nil (decimal_digits fuel (n / 10)) (48 + n % 10))

cstr-digits : (cs : List ℕ) → All IsDigit cs → cstr cs ≡ cs
unfolding cstr
cstr-digits [] h = refl
cstr-digits (zero ∷ cs) h = absurd (omega arith)
cstr-digits (suc c ∷ cs) h = ground (arith, cstr-digits cs)

parse_int-digits :
    (cs : List ℕ) (n : ℕ)
    → cs ≢ []
    → All IsDigit cs
    → digits_value 0 cs ≡ some n
    → n < 2 ^ 31
    → parse_int cs ≡ some (pos n)
unfolding parse_int
parse_int-digits [] n ne h e k = absurd (ne refl)
parse_int-digits (c ∷ cs) n ne h e k = ground (arith, cstr-digits (c ∷ cs) h)

-- An `int` that is not negative is read back from its decimal digits.
pub parse_int-decimal : (n : ℕ) → n < 2 ^ 31 → parse_int (decimal n) ≡ some (pos n)
unfolding decimal
parse_int-decimal n h =
    parse_int-digits (decimal_digits 20 n) n (decimal_digits-ne-nil 19 n)
      (decimal_digits-IsDigit 20 n) (digits_value-decimal_digits 19 n (omega arith)) h

pub decimal-IsDigit : (n : ℕ) → All IsDigit (decimal n)
unfolding decimal
decimal-IsDigit n = decimal_digits-IsDigit 20 n

pub length-decimal : (n : ℕ) → length (decimal n) ≤ 20
unfolding decimal
length-decimal n = length-decimal_digits 20 n
