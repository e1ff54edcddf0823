-- ===== src/Errors/Classes.antt =====
-- The classes of errors (socket++/socketerr.cpp): which label of which `switch` decides.
use cpr.Common.{
  ℕ, ◌≡◌, refl, sym, ◌∙◌, List, [], ◌∷◌, Bool, true, false, not, ◌&&◌, ◌||◌, ◌==◌, if◌then◌else◌,
  Bool-cases, ==_iff, inl, inr, arith,
}
use cpr.Errors.{
  SocketErrc, success, io, benign, argument, address, connection, operational, other, is_in, value,
  io_errors, arg_errors, op_errors, conn_errors, addr_errors, benign_errors, sockerr_io,
  sockerr_arg, sockerr_op, sockerr_conn, sockerr_addr, sockerr_benign, default_error_condition,
  err_io, err_arg, err_op, err_conn, err_addr, err_benign,
}

-- No label of the first list is one of the second.
abbrev disjoint : List ℕ → List ℕ → Bool
disjoint [] ys = true
disjoint (x ∷ xs) ys = not (is_in x ys) && disjoint xs ys

disjoint_lem :
    (e : ℕ) (xs ys : List ℕ) → disjoint xs ys ≡ true → is_in e xs ≡ true → is_in e ys ≡ false
disjoint_lem e [] ys d h = absurd (ground (arith, h))
disjoint_lem e (x ∷ xs) ys d h = elim (Bool-cases (e == x)) [
  | inl b ↦ ground (arith, d, (==_iff e x).0 b)
  | inr b ↦ ground (arith, d, h, b, disjoint_lem e xs ys)
]

-- No errno is in both of two lists without a common label.
abbrev Apart : Bool → Bool → Type 0
Apart a b = a ≡ true → b ≡ false

is_in-Apart : (xs ys : List ℕ) → disjoint xs ys ≡ true → (e : ℕ) → Apart (is_in e xs) (is_in e ys)
is_in-Apart xs ys d e = disjoint_lem e xs ys d

or_false : (b : Bool) → b || false ≡ b
or_false true = refl
or_false false = refl

is_in-zero : (xs : List ℕ) → disjoint xs (0 ∷ []) ≡ true → (e : ℕ) → Apart (is_in e xs) (e == 0)
is_in-zero xs d e h = sym (or_false (e == 0)) ∙ disjoint_lem e xs (0 ∷ []) d h

-- The class that the chain of tests gives.
abbrev chain : Bool → Bool → Bool → Bool → Bool → Bool → Bool → SocketErrc
chain z b a c o g i =
    if z
    then success
    else if b
    then benign
    else if a
    then address
    else if c
    then connection
    else if o
    then operational
    else if g
    then argument
    else if i
    then io
    else other

chain_benign : (z b a c o g i : Bool) → Apart b z → value (chain z b a c o g i) == 2 ≡ b
chain_benign z b a c o g i bz = ground arith

chain_addr : (z b a c o g i : Bool) → Apart a z → Apart a b → value (chain z b a c o g i) == 4 ≡ a
chain_addr z b a c o g i az ab = ground arith

chain_conn :
    (z b a c o g i : Bool)
    → Apart c z
    → Apart c b
    → Apart c a
    → value (chain z b a c o g i) == 5 ≡ c
chain_conn z b a c o g i cz cb ca = ground arith

chain_op :
    (z b a c o g i : Bool)
    → Apart o z
    → Apart o b
    → Apart o a
    → value (chain z b a c o g i) == 6 ≡ o && not c
chain_op z b a c o g i oz ob oa = ground arith

chain_arg :
    (z b a c o g i : Bool)
    → Apart g z
    → Apart g b
    → Apart g a
    → Apart g c
    → Apart g o
    → value (chain z b a c o g i) == 3 ≡ g
chain_arg z b a c o g i gz gb ga gc go = ground arith

chain_io :
    (z b a c o g i : Bool)
    → Apart i z
    → Apart i b
    → Apart i a
    → Apart i c
    → Apart i o
    → Apart i g
    → value (chain z b a c o g i) == 1 ≡ i
chain_io z b a c o g i iz ib ia ic io' ig = ground arith

-- For every errno the tests `benign ()`, `addr ()`, `conn ()`, `arg ()` and `io ()` of an `err`
-- are what `sockerr_benign` and its kin say, and `op ()` is true exactly where `sockerr_op` is
-- and `sockerr_conn` is not.
pub err_tests :
    (e : ℕ)
    → (err_benign e ≡ sockerr_benign e)
      × (err_addr e ≡ sockerr_addr e)
      × (err_conn e ≡ sockerr_conn e)
      × (err_op e ≡ sockerr_op e && not (sockerr_conn e))
      × (err_arg e ≡ sockerr_arg e)
      × (err_io e ≡ sockerr_io e)
unfolding err_benign err_addr err_conn err_op err_arg err_io default_error_condition sockerr_benign
    sockerr_addr sockerr_conn sockerr_op sockerr_arg sockerr_io
err_tests e =
    let z = e == 0 in
    let b = is_in e benign_errors in
    let a = is_in e addr_errors in
    let c = is_in e conn_errors in
    let o = is_in e op_errors in
    let g = is_in e arg_errors in
    let i = is_in e io_errors in
    (
      chain_benign z b a c o g i (is_in-zero benign_errors refl e),
      chain_addr z b a c o g i (is_in-zero addr_errors refl e)
          (is_in-Apart addr_errors benign_errors refl e),
      chain_conn z b a c o g i (is_in-zero conn_errors refl e)
          (is_in-Apart conn_errors benign_errors refl e)
          (is_in-Apart conn_errors addr_errors refl e),
      chain_op z b a c o g i (is_in-zero op_errors refl e)
          (is_in-Apart op_errors benign_errors refl e) (is_in-Apart op_errors addr_errors refl e),
      chain_arg z b a c o g i (is_in-zero arg_errors refl e)
          (is_in-Apart arg_errors benign_errors refl e) (is_in-Apart arg_errors addr_errors refl e)
          (is_in-Apart arg_errors conn_errors refl e) (is_in-Apart arg_errors op_errors refl e),
      chain_io z b a c o g i (is_in-zero io_errors refl e)
          (is_in-Apart io_errors benign_errors refl e) (is_in-Apart io_errors addr_errors refl e)
          (is_in-Apart io_errors conn_errors refl e) (is_in-Apart io_errors op_errors refl e)
          (is_in-Apart io_errors arg_errors refl e),
    )
