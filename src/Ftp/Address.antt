-- ===== src/Ftp/Address.antt =====
-- The arguments of `PORT` (socket++/ftp.cpp), as the server of RFC 959 reads them.
use cpr.Common.{
  ℕ, zero, suc, ◌+◌, ◌-◌, ◌*◌, ◌/◌, ◌%◌, ◌^◌, ◌<◌, ◌≤◌, ◌≡◌, refl, ap, ◌∙◌, List, [], ◌∷◌, ◌++◌,
  ◌==◌, if◌then◌else◌, decimal, digits, arith, Bool-cases, inl, inr, ltb, ltb→lt, false,
}
use cpr.Os.{InetAddr}
use cpr.Inet.{htons}
use cpr.Ftp.{before_comma, port_text, port_address}

-- The numbers between the commas, `n` being the value of the digits read.
abbrev pub numbers : ℕ → List ℕ → List ℕ
numbers n [] = n ∷ []
numbers n (c ∷ cs) =
    let next = n ∷ numbers 0 cs in
    let more = numbers (n * 10 + (c - 48)) cs in if c == 44 then next else more

digits_small : (fuel n : ℕ) (rest : List ℕ) → n < 10 → digits (suc fuel) n rest ≡ (48 + n) ∷ rest
unfolding digits
digits_small fuel n rest h = ground arith

digits_large :
    (fuel n : ℕ) (rest : List ℕ)
    → 10 ≤ n
    → digits (suc fuel) n rest ≡ digits fuel (n / 10) ((48 + n % 10) ∷ rest)
unfolding digits
digits_large fuel n rest h = ground arith

-- A digit behind the value read so far.
numbers-digit :
    (n d : ℕ) (rest : List ℕ) → d < 10 → numbers n ((48 + d) ∷ rest) ≡ numbers (n * 10 + d) rest
numbers-digit n d rest h =
    let no_comma : (48 + d == 44) ≡ false = ground arith in
    rw no_comma (ap (λ k. numbers k rest) (omega arith))

numbers-digits :
    (fuel n : ℕ) (rest : List ℕ) → n < fuel → numbers 0 (digits fuel n rest) ≡ numbers n rest
numbers-digits zero n rest h = absurd (omega arith)
numbers-digits (suc fuel) n rest h = elim (Bool-cases (ltb n 10)) [
  | inl b ↦
      let small : n < 10 = ltb→lt n 10 b in
      ap (numbers 0) (digits_small fuel n rest small)
      ∙ numbers-digit 0 n rest small
      ∙ ap (λ k. numbers k rest) (omega arith)
  | inr b ↦
      let large : 10 ≤ n = ground (arith, b) in
      ap (numbers 0) (digits_large fuel n rest large)
      ∙ numbers-digits fuel (n / 10) ((48 + n % 10) ∷ rest) (omega arith)
      ∙ numbers-digit (n / 10) (n % 10) rest (omega arith)
      ∙ ap (λ k. numbers k rest) (omega arith)
]

digits-append : (fuel n : ℕ) (xs ys : List ℕ) → digits fuel n xs ++ ys ≡ digits fuel n (xs ++ ys)
unfolding digits
digits-append zero n xs ys = refl
digits-append (suc fuel) n xs ys =
    ground (arith, digits-append fuel (n / 10) ((48 + n % 10) ∷ xs) ys)

-- A printed number is read back, up to the comma or to the end.
numbers-decimal : (n : ℕ) → numbers 0 (decimal n) ≡ n ∷ []
unfolding decimal
numbers-decimal n = numbers-digits (suc n) n [] (omega arith)

numbers-decimal_comma :
    (n : ℕ) (rest : List ℕ) → numbers 0 (before_comma n rest) ≡ n ∷ numbers 0 rest
unfolding decimal
numbers-decimal_comma n rest =
    ap (numbers 0) (digits-append (suc n) n [] (44 ∷ rest))
    ∙ numbers-digits (suc n) n (44 ∷ rest) (omega arith)

-- The argument of `PORT` that `useraddr` prints, read as numbers between commas, is the four
-- bytes of the address in the order in which they stand in memory, and then the upper and the
-- lower part of the port in host order.
pub numbers-port_address :
    (sa : InetAddr)
    → let port = htons sa.sin_port in
      numbers 0 (port_address sa)
      ≡ sa.sin_addr % 256
        ∷ sa.sin_addr / 256 % 256
        ∷ sa.sin_addr / 2 ^ 16 % 256
        ∷ sa.sin_addr / 2 ^ 24 % 256
        ∷ port / 256
        ∷ port % 256
        ∷ []
unfolding port_address port_text
numbers-port_address sa =
    let port = htons sa.sin_port in
    numbers-decimal_comma (sa.sin_addr % 256) _
    ∙ ap (λ xs. sa.sin_addr % 256 ∷ xs)
        (numbers-decimal_comma (sa.sin_addr / 256 % 256) _
          ∙ ap (λ xs. sa.sin_addr / 256 % 256 ∷ xs)
              (numbers-decimal_comma (sa.sin_addr / 2 ^ 16 % 256) _
                ∙ ap (λ xs. sa.sin_addr / 2 ^ 16 % 256 ∷ xs)
                    (numbers-decimal_comma (sa.sin_addr / 2 ^ 24 % 256) _
                      ∙ ap (λ xs. sa.sin_addr / 2 ^ 24 % 256 ∷ xs)
                          (numbers-decimal_comma (port / 256) _
                            ∙ ap (λ xs. port / 256 ∷ xs) (numbers-decimal (port % 256))))))
