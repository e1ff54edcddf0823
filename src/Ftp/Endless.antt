-- ===== src/Ftp/Endless.antt =====
-- The loop of `ftpdata` that receives a file (socket++/ftp.cpp), and the counts of `sgetn` that it
-- compares with `EOF`.
use cpr.Common.{
  ◌+◌, ◌-◌, ◌%◌, ◌^◌, ◌≤◌, ◌++◌, none, ltb, arith, true, false, to_int, is_minus_one, ◌>>=◌, ℕ,
  zero, suc, List, Option, some, leb, ◌≡◌, refl, Bool-cases, inl, inr, Thrown, Result, ok, thrown,
  running, Action, follow, ◌>>◌, pure, if◌then◌else◌, modify,
}
use cpr.Os.{Os}
use cpr.Sockbuf.State.{Sock}
use cpr.Inet.{Resolver, bind_until_success, localaddr}
use cpr.Sockbuf.Buffer.{xsgetn, showmanyc, take_chars, available}
use cpr.Sockbuf.Lifecycle.{accept, listen}
use cpr.Ftp.{Ftp, rca_error, get_response, useraddr, send_cmd}
use cpr.Ftp.Transfer.{
  Sink, on_local, write_to, receive_chunks, transfer, end_scope, destroyed, data_block, begin,
  ftpdata, on_client, settle_client, settle_local, share,
}

-- A call that does not return.
unfoldable NotOk : {S A : Type 0} → Result A × S → Type 0
NotOk (ok a, s) = ⊥
NotOk (thrown e, s) = Unit {0}
NotOk (running, s) = Unit {0}

-- A call that returns nothing but `rca_error`.
unfoldable pub OnlyError : {S : Type 0} → Result ℕ × S → Type 0
OnlyError (ok code, s) = code ≡ rca_error
OnlyError (thrown e, s) = Unit {0}
OnlyError (running, s) = Unit {0}

running_NotOk : {S : Type 0} (A : Type 0) (s : S) → NotOk {S = S} {A = A} (running, s)
unfolding NotOk
running_NotOk A s = tt

error_OnlyError : {S : Type 0} (s : S) → OnlyError (ok rca_error, s)
unfolding OnlyError
error_OnlyError s = refl

first_NotOk :
    {S A : Type 0} (f : A → Action S ℕ) (r : Result A × S) → NotOk r → OnlyError (follow f r)
unfolding NotOk OnlyError
first_NotOk f (ok a, s) n = absurd n
first_NotOk f (thrown e, s) n = tt
first_NotOk f (running, s) n = tt

rest_NotOk :
    {S A B : Type 0} (f : A → Action S B) (r : Result A × S)
    → ((a : A) (s : S) → NotOk (f a s))
    → NotOk (follow f r)
unfolding NotOk
rest_NotOk f (ok a, s) n = n a s
rest_NotOk f (thrown e, s) n = tt
rest_NotOk f (running, s) n = tt

rest_OnlyError :
    {S A : Type 0} (f : A → Action S ℕ) (r : Result A × S)
    → ((a : A) (s : S) → OnlyError (f a s))
    → OnlyError (follow f r)
unfolding OnlyError
rest_OnlyError f (ok a, s) n = n a s
rest_OnlyError f (thrown e, s) n = tt
rest_OnlyError f (running, s) n = tt

-- A call of `sgetn` that returns a count, which is at most `n`.
abbrev Counts : {S : Type 0} → ℕ → Result (List ℕ × ℕ) × S → Type 0
Counts n (ok (xs, k), s) = k ≤ n
Counts n (thrown e, s) = Unit {0}
Counts n (running, s) = Unit {0}

more-Counts :
    {S : Type 0} (n rval : ℕ) (xs : List ℕ) (r : Result (List ℕ × ℕ) × S)
    → rval ≤ n
    → Counts (n - rval) r
    → Counts n (follow (λ (p : List ℕ × ℕ). pure (xs ++ p.0, rval + p.1)) r)
more-Counts n rval xs (ok (ys, k), s) l c = omega (arith, l, c)
more-Counts n rval xs (thrown e, s) l c = tt
more-Counts n rval xs (running, s) l c = tt

module _ (os : Os) where
  refilled-Counts :
      (n rval : ℕ) (xs : List ℕ) (again : Action (Sock os.World) (List ℕ × ℕ))
      (r : Result (Option ℕ) × Sock os.World)
      → rval ≤ n
      → ((s : Sock os.World) → Counts (n - rval) (again s))
      → Counts n (
          follow
            (λ c. elim c as (λ _. Action (Sock os.World) (List ℕ × ℕ)) [
              | none ↦ pure (xs, rval)
              | some _ ↦ again >>= λ (p : List ℕ × ℕ). pure (xs ++ p.0, rval + p.1)
            ])
            r)
  refilled-Counts n rval xs again (ok none, s) l c = l
  refilled-Counts n rval xs again (ok (some x), s) l c = more-Counts n rval xs (again s) l (c s)
  refilled-Counts n rval xs again (thrown e, s) l c = tt
  refilled-Counts n rval xs again (running, s) l c = tt

  xsgetn-Counts : (rounds n : ℕ) (s : Sock os.World) → Counts n (xsgetn os rounds n s)
  unfolding xsgetn showmanyc take_chars
  xsgetn-Counts zero n s = tt
  xsgetn-Counts (suc rounds) n s = elim (Bool-cases (leb n (available s.get))) [
    | inl b ↦ rw b (omega arith)
    | inr b ↦ rw b (
        refilled-Counts n (available s.get) _ (xsgetn os rounds (n - available s.get)) _
          (ground (arith, b)) (xsgetn-Counts rounds (n - available s.get)))
  ]

-- A count of at most 1024 stays what it is as an `int`, and is not -1.
to_int_count : (k : ℕ) → k ≤ 1024 → is_minus_one (to_int k) ≡ false
to_int_count k l =
    let whole : k % 2 ^ 32 ≡ k = omega (arith, l) in
    let fits : ltb k (2 ^ 31) ≡ true = ground (arith, l) in rw (whole, fits) refl

rest_counted :
    {S B : Type 0} (n : ℕ) (f : List ℕ × ℕ → Action S B) (r : Result (List ℕ × ℕ) × S)
    → Counts n r
    → ((p : List ℕ × ℕ) (s : S) → p.1 ≤ n → NotOk (f p s))
    → NotOk (follow f r)
unfolding NotOk
rest_counted n f (ok p, s) c k = k p s c
rest_counted n f (thrown e, s) c k = tt
rest_counted n f (running, s) c k = tt

module _ (os : Os) (fuel : ℕ) (net : Resolver) where
  on_local-Counts :
      (n : ℕ) (x : Sock os.World × Ftp os.World) → Counts n (on_local (xsgetn os fuel n) x)
  on_local-Counts n (c, s) =
      settled (xsgetn os fuel n (share s c)) (xsgetn-Counts os fuel n (share s c))
    where
      settled : (r : Result (List ℕ × ℕ) × Sock os.World) → Counts n r → Counts n (settle_local s r)
      settled (ok p, t) k = k
      settled (thrown e, t) k = tt
      settled (running, t) k = tt

  receive_chunks-NotOk :
      (rounds : ℕ) (sink : Sink) (x : Sock os.World × Ftp os.World)
      → NotOk (receive_chunks os fuel net rounds sink x)
  unfolding receive_chunks
  receive_chunks-NotOk zero sink x = running_NotOk (Unit {0}) x
  receive_chunks-NotOk (suc rounds) sink x =
      rest_counted 1024 _ (on_local (xsgetn os fuel 1024) x) (on_local-Counts 1024 x) (λ p y l.
        rw (to_int_count p.1 l) (
          rest_NotOk _ (on_client (modify (write_to sink p.0)) y)
            (λ _ z. receive_chunks-NotOk rounds sink z)))

  destroyed-NotOk :
      (A : Type 0) (e : Thrown) (d : Result (Unit {0}) × (Sock os.World × Ftp os.World))
      → NotOk (destroyed os fuel net {A = A} (thrown e) d)
  unfolding NotOk
  destroyed-NotOk A e (ok _, (c, s)) = tt
  destroyed-NotOk A e (thrown e', (c, s)) = tt
  destroyed-NotOk A e (running, (c, s)) = tt

  end_scope-NotOk :
      {A : Type 0} (r : Result A × (Sock os.World × Ftp os.World))
      → NotOk r
      → NotOk (end_scope os fuel net r)
  unfolding NotOk
  end_scope-NotOk (ok a, x) n = absurd n
  end_scope-NotOk (thrown e, x) n = destroyed-NotOk _ e _
  end_scope-NotOk (running, (c, s)) n = tt

  destroyed-OnlyError :
      (r : Result ℕ) (x : Sock os.World × Ftp os.World)
      (d : Result (Unit {0}) × (Sock os.World × Ftp os.World))
      → OnlyError (r, x)
      → OnlyError (destroyed os fuel net r d)
  unfolding OnlyError
  destroyed-OnlyError (ok code) x (ok _, (c, s)) n = n
  destroyed-OnlyError (thrown e) x (ok _, (c, s)) n = tt
  destroyed-OnlyError running x (ok _, (c, s)) n = tt
  destroyed-OnlyError r x (thrown e, (c, s)) n = tt
  destroyed-OnlyError r x (running, (c, s)) n = tt

  end_scope-OnlyError :
      (r : Result ℕ × (Sock os.World × Ftp os.World))
      → OnlyError r
      → OnlyError (end_scope os fuel net r)
  unfolding OnlyError
  end_scope-OnlyError (ok a, x) n = destroyed-OnlyError (ok a) x _ n
  end_scope-OnlyError (thrown e, x) n = destroyed-OnlyError (thrown e) x _ n
  end_scope-OnlyError (running, (c, s)) n = tt

  settled_NotOk :
      {A : Type 0} (c : Sock os.World) (r : Result A × Ftp os.World)
      → NotOk r
      → NotOk (settle_client c r)
  unfolding NotOk
  settled_NotOk c (ok a, s) n = n
  settled_NotOk c (thrown e, s) n = tt
  settled_NotOk c (running, s) n = tt

  module _ (bufsiz : ℕ) (gbuf pbuf : List ℕ) where
    transfer-NotOk :
        (sink : Sink) (source : Option (List (List ℕ))) (x : Sock os.World × Ftp os.World)
        → NotOk (transfer os fuel net bufsiz gbuf pbuf (some sink) source x)
    transfer-NotOk sink source x =
        rest_NotOk _ (on_local (accept os) x)
          (λ sd y. settled_NotOk y.0 _ (end_scope-NotOk _ (receive_chunks-NotOk fuel sink _)))

    data_block-OnlyError :
        (portno : ℕ) (source : Option (List (List ℕ))) (sink : Sink) (cmd : List ℕ)
        (arg : Option (List ℕ)) (x : Sock os.World × Ftp os.World)
        → OnlyError (data_block os fuel net bufsiz gbuf pbuf portno source (some sink) cmd arg x)
    unfolding data_block
    data_block-OnlyError portno source sink cmd arg x =
        rest_OnlyError _ (on_local (bind_until_success os fuel portno) x) (λ p x₁.
          rest_OnlyError _ (on_local (localaddr os) x₁) (λ sa x₂.
            rest_OnlyError _ (on_client (useraddr os fuel net sa) x₂) (λ c x₃.
              rest_OnlyError _ (on_local (listen os 1) x₃) (λ l x₄.
                rest_OnlyError _ (on_client (send_cmd os fuel cmd arg) x₄)
                  (λ code x₅. answered code sink source x₅)))))
      where
        answered :
            (code : ℕ) (sink : Sink) (source : Option (List (List ℕ)))
            (y : Sock os.World × Ftp os.World)
            → OnlyError (
                (if leb rca_error code
                    then pure rca_error
                    else transfer os fuel net bufsiz gbuf pbuf (some sink) source
                      >> on_client (get_response os fuel))
                  y)
        answered code sink source y = elim (Bool-cases (leb rca_error code)) [
          | inl b ↦ rw b (error_OnlyError y)
          | inr b ↦ rw b (
              first_NotOk _ (transfer os fuel net bufsiz gbuf pbuf (some sink) source y)
                (transfer-NotOk sink source y))
        ]

    begin-OnlyError :
        (m : Action (Sock os.World × Ftp os.World) ℕ) (s : Ftp os.World)
        (r : Result (Sock os.World) × (ℕ × os.World))
        → ((x : Sock os.World × Ftp os.World) → OnlyError (m x))
        → OnlyError (begin os fuel net bufsiz gbuf pbuf m s r)
    unfolding OnlyError
    begin-OnlyError m s (ok sb, (e, w)) k = end_scope-OnlyError _ (k _)
    begin-OnlyError m s (thrown x, (e, w)) k = tt
    begin-OnlyError m s (running, (e, w)) k = tt

    -- `ftpdata` with an output stream, whatever the system, the resolver and the client do
    -- and for any amount of fuel, does not return a reply: the only value that it returns is
    -- `rca_error`. Otherwise it throws, or is still running.
    pub ftpdata-OnlyError :
        (portno : ℕ) (source : Option (List (List ℕ))) (sink : Sink) (cmd : List ℕ)
        (arg : Option (List ℕ)) (s : Ftp os.World)
        → OnlyError (ftpdata os fuel net bufsiz gbuf pbuf portno source (some sink) cmd arg s)
    unfolding ftpdata
    ftpdata-OnlyError portno source sink cmd arg s =
        begin-OnlyError _ s _ (data_block-OnlyError portno source sink cmd arg)
