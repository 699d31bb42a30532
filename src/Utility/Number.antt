-- ===== src/Utility/Number.antt =====
-- A number put into a string, `encrypt_number`, `encrypt` and their inverses in
-- framework/core/src/basic/utility.cc. Numbers are not negative, and `to_string` and `pow` are
-- arguments: how many digits a number has, and the powers of ten. Where the code takes `data()` of a
-- view, it reads on to the NUL, behind the view's end.
use plain.Prelude.{
  ℕ, zero, suc, ◌+◌, ◌-◌, ◌*◌, ◌/◌, ◌%◌, ◌^◌, ◌≤◌, ◌<◌, ◌≡◌, ◌≢◌, ◌∙◌, refl, sym, ap, ap₂, inl, inr,
  Option, none, some, List, [], ◌∷◌, ◌++◌, length, length-append, length-drop, take, drop, leb, ltb,
  ◌==◌, if◌then◌else◌, Bool-cases, get_or, arith,
}
use native.Mathlib.Nat.{
  div-add-mod, mod-eq_of_lt, div-div-eq-div-mul, mul-add, mul_assoc, mul_comm, pow-suc, one-le-pow,
}
use mathlib.Core.Option.{none-ne-some, some-injective}

module _ (pow10 : ℕ → ℕ) where
  -- The loop of `encrypt_number` with `n` digits left, the highest first.
  unfoldable pub encrypt_digits : ℕ → ℕ → ℕ → List ℕ
  encrypt_digits zero number char = []
  encrypt_digits (suc n) number char =
      ((number / pow10 n) % 10 + char) ∷ encrypt_digits n number char

  -- The loop of `decrypt_number`, from a value of `number`, a word of 32 bits.
  unfoldable pub decrypt_digits : ℕ → List ℕ → ℕ → ℕ
  decrypt_digits number [] char = number
  decrypt_digits number (c ∷ input) char =
      decrypt_digits ((number + (c + (2 ^ 32 - char)) % 2 ^ 32 * pow10 (length input)) % 2 ^ 32)
        input char

  unfoldable pub decrypt_number : List ℕ → ℕ → ℕ
  unfolding decrypt_digits
  decrypt_number input char = decrypt_digits 0 input char

  module _ (digits : ℕ → ℕ) where
    unfoldable pub encrypt_number : ℕ → ℕ → List ℕ
    unfolding encrypt_digits
    encrypt_number number char = encrypt_digits (digits number) number char

    -- The random character and position are arguments.
    unfoldable pub encrypt : ℕ → ℕ → List ℕ → ℕ → List ℕ
    unfolding encrypt_number
    encrypt first_char pos input number =
        let number_str = encrypt_number number first_char in
        let pos_str = encrypt_number pos first_char in
        let len_char = first_char + length number_str in
        let pos_len_char = first_char + length pos_str in
        let out = first_char ∷ len_char ∷ pos_len_char ∷ pos_str in
        if pos == 0
        then out ++ (number_str ++ input)
        else if pos == length input
        then out ++ (input ++ number_str)
        else out ++ (input ++ (number_str ++ drop pos input))

  -- The last two views go on to the end of the string; a difference below 0 wraps.
  unfoldable pub decrypt : List ℕ → Option (ℕ × List ℕ)
  unfolding decrypt_number
  decrypt input =
      let first_char = get_or input 0 0 in
      let len = (get_or input 1 0 + (2 ^ 32 - first_char)) % 2 ^ 32 in
      let pos_len = (get_or input 2 0 + (2 ^ 32 - first_char)) % 2 ^ 32 in
      let header_size = 3 + pos_len in
      let pos = decrypt_number (take pos_len (drop 3 input)) first_char in
      let rsize = length input - header_size in
      if leb (length input) 4
      then none
      else if ltb (length input) header_size
      then none
      else if ltb rsize ((pos + len) % 2 ^ 32)
      then none
      else some (
        decrypt_number (drop (header_size + pos) input) first_char,
        drop header_size input ++ drop (header_size + pos + len) input,
      )

length-encrypt_digits :
    (pow10 : ℕ → ℕ) (n number char : ℕ) → length (encrypt_digits pow10 n number char) ≡ n
unfolding encrypt_digits
length-encrypt_digits pow10 zero number char = refl
length-encrypt_digits pow10 (suc n) number char = ap suc (length-encrypt_digits pow10 n number char)

-- A digit more of what is left of a number.
next_digit : (n m : ℕ) → 0 < m → n % (m * 10) ≡ m * (n / m % 10) + n % m
next_digit n m h =
    let q = n / m / 10 in
    let whole = div-add-mod n (m * 10) in
    let parts = div-add-mod n m in
    let tens = div-add-mod (n / m) 10 in
    let same : n / (m * 10) ≡ q = sym (div-div-eq-div-mul n m 10) in
    let spread : m * (n / m) ≡ m * 10 * q + m * (n / m % 10) =
      ap (λ t. m * t) (sym tens)
      ∙ mul-add m (10 * q) (n / m % 10)
      ∙ ap (λ t. t + m * (n / m % 10)) (sym (mul_assoc m 10 q)) in
    let at : m * 10 * (n / (m * 10)) ≡ m * 10 * q = ap (λ t. m * 10 * t) same in
    omega (arith, whole, parts, spread, at)

module _ (pow10 : ℕ → ℕ) (powers : (k : ℕ) → k ≤ 9 → pow10 k ≡ 10 ^ k) (char : ℕ) where
  decrypt_digits-encrypt_digits :
      (n number acc : ℕ)
      → n ≤ 10
      → char < 2 ^ 32
      → acc + number % 10 ^ n < 2 ^ 32
      → decrypt_digits pow10 acc (encrypt_digits pow10 n number char) char ≡ acc + number % 10 ^ n
  unfolding encrypt_digits decrypt_digits
  decrypt_digits-encrypt_digits zero number acc small c bound = omega arith
  decrypt_digits-encrypt_digits (suc n) number acc small c bound =
      let p = 10 ^ n in
      let d = number / p % 10 in
      let input = encrypt_digits pow10 n number char in
      let at : pow10 n ≡ p = powers n (omega arith) in
      let split : number % 10 ^ suc n ≡ p * d + number % p =
        ap (λ t. number % t) (pow-suc 10 n) ∙ next_digit number p (one-le-pow n 10 (omega arith)) in
      let digit : (number / pow10 n % 10 + char + (2 ^ 32 - char)) % 2 ^ 32 ≡ d =
        ap (λ t. (number / t % 10 + char + (2 ^ 32 - char)) % 2 ^ 32) at ∙ omega arith in
      let next : (acc
              + (number / pow10 n % 10 + char + (2 ^ 32 - char)) % 2 ^ 32 * pow10 (length input))
            % 2 ^ 32
          ≡ acc + p * d =
        ap₂ (λ t u. (acc + t * u) % 2 ^ 32) digit
          (ap pow10 (length-encrypt_digits pow10 n number char) ∙ at)
        ∙ ap (λ t. (acc + t) % 2 ^ 32) (mul_comm d p)
        ∙ mod-eq_of_lt (omega (arith, bound, split)) in
      ap (λ t. decrypt_digits pow10 t input char) next
      ∙ decrypt_digits-encrypt_digits n number (acc + p * d) (omega arith) c
          (omega (arith, bound, split))
      ∙ omega (arith, split)

  module _ (digits : ℕ → ℕ) (all_digits : (m : ℕ) → m < 2 ^ 31 → m < 10 ^ digits m)
      (few : (m : ℕ) → m < 2 ^ 31 → digits m ≤ 10) where
    -- A number that is not negative is read back from its digits, whatever the character.
    pub decrypt_number-encrypt_number :
        (number : ℕ)
        → number < 2 ^ 31
        → char < 2 ^ 7
        → decrypt_number pow10 (encrypt_number pow10 digits number char) char ≡ number
    unfolding decrypt_number encrypt_number
    decrypt_number-encrypt_number number h c =
        let whole : number % 10 ^ digits number ≡ number = mod-eq_of_lt (all_digits number h) in
        decrypt_digits-encrypt_digits (digits number) number 0 (few number h) (omega arith)
          (omega (arith, whole))
        ∙ omega (arith, whole)

module _ (pow10 digits : ℕ → ℕ) where
  length-encrypt_number :
      (number char : ℕ) → length (encrypt_number pow10 digits number char) ≡ digits number
  unfolding encrypt_number
  length-encrypt_number number char = length-encrypt_digits pow10 (digits number) number char

  -- What stands behind the header.
  abbrev body : ℕ → ℕ → List ℕ → ℕ → List ℕ
  body first_char pos input number =
      let number_str = encrypt_number pow10 digits number first_char in
      if pos == 0
      then number_str ++ input
      else if pos == length input
      then input ++ number_str
      else input ++ (number_str ++ drop pos input)

  abbrev header : ℕ → ℕ → ℕ → List ℕ
  header first_char pos number =
      first_char
      ∷ (first_char + length (encrypt_number pow10 digits number first_char))
      ∷ (first_char + length (encrypt_number pow10 digits pos first_char))
      ∷ encrypt_number pow10 digits pos first_char

  length-body :
      (first_char pos : ℕ) (input : List ℕ) (number : ℕ)
      → length input + digits number ≤ length (body first_char pos input number)
  unfolding encrypt_number
  length-body first_char pos input number =
      let number_str = encrypt_digits pow10 (digits number) number first_char in
      let long = length-encrypt_digits pow10 (digits number) number first_char in
      ground (
        arith,
        long,
        length-append number_str input,
        length-append input number_str,
        length-append input (number_str ++ drop pos input),
        length-append number_str (drop pos input),
      )

  encrypt-header :
      (first_char pos : ℕ) (input : List ℕ) (number : ℕ)
      → encrypt pow10 digits first_char pos input number
        ≡ header first_char pos number ++ body first_char pos input number
  unfolding encrypt
  encrypt-header first_char pos input number = elim (Bool-cases (pos == 0)) [
    | inl front ↦ rw front refl
    | inr later ↦ rw later (elim (Bool-cases (pos == length input)) [
      | inl back ↦ rw back refl
      | inr inside ↦ rw inside refl
    ])
  ]

  -- A decrypted string goes on as far as the encrypted one.
  decrypt_rest :
      (input : List ℕ) (r : ℕ × List ℕ)
      → decrypt pow10 input ≡ some r
      → length input ≤ 3 + (get_or input 2 0 + (2 ^ 32 - get_or input 0 0)) % 2 ^ 32 + length r.1
  unfolding decrypt
  decrypt_rest input r e =
      let len = (get_or input 1 0 + (2 ^ 32 - get_or input 0 0)) % 2 ^ 32 in
      let header_size = 3 + (get_or input 2 0 + (2 ^ 32 - get_or input 0 0)) % 2 ^ 32 in
      let pos =
        decrypt_number pow10
          (take ((get_or input 2 0 + (2 ^ 32 - get_or input 0 0)) % 2 ^ 32) (drop 3 input))
          (get_or input 0 0) in
      elim (Bool-cases (leb (length input) 4)) [
        | inl few ↦ absurd (none-ne-some r (rw few at e))
        | inr enough ↦ elim (Bool-cases (ltb (length input) header_size)) [
          | inl short ↦ absurd (none-ne-some r (rw (enough, short) at e))
          | inr headed ↦
              elim (Bool-cases (ltb (length input - header_size) ((pos + len) % 2 ^ 32))) [
                | inl cut ↦ absurd (none-ne-some r (rw (enough, headed, cut) at e))
                | inr whole ↦
                    let tail = drop (header_size + pos + len) input in
                    let out : drop header_size input ++ tail ≡ r.1 =
                      ap (λ t. t.1)
                        (some-injective
                          (
                            decrypt_number pow10 (drop (header_size + pos) input)
                                (get_or input 0 0),
                            drop header_size input ++ tail,
                          )
                          r (rw (enough, headed, whole) at e)) in
                    omega (
                      arith,
                      ap length out,
                      length-append (drop header_size input) tail,
                      length-drop header_size input,
                    )
              ]
        ]
      ]

  -- What `decrypt` makes of an encrypted string, when it takes it, is never the string: what follows
  -- the part that was asked for is there as well. The number has a digit, and the position few.
  pub decrypt-encrypt_never :
      (first_char pos : ℕ) (input : List ℕ) (number : ℕ) (r : ℕ × List ℕ)
      → first_char < 2 ^ 7
      → 1 ≤ digits number
      → digits pos ≤ 10
      → decrypt pow10 (encrypt pow10 digits first_char pos input number) ≡ some r
      → r.1 ≢ input
  decrypt-encrypt_never first_char pos input number r small some_digit few e same =
      let out = header first_char pos number ++ body first_char pos input number in
      let rest =
        decrypt_rest out r
          (sym (ap (decrypt pow10) (encrypt-header first_char pos input number)) ∙ e) in
      let long = length-append (header first_char pos number) (body first_char pos input number) in
      let head : length (encrypt_number pow10 digits pos first_char) ≡ digits pos =
        length-encrypt_number pos first_char in
      omega (
        arith,
        rest,
        long,
        head,
        length-body first_char pos input number,
        ap length same,
        small,
        some_digit,
        few,
      )
