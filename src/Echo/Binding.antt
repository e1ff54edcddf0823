-- ===== src/Echo/Binding.antt =====
-- Binding the echo server's socket leaves its child processes alone (socket++/echo.cpp).
use cpr.Common.{
  ℕ, ◌≡◌, refl, ◌∙◌, List, [], ◌∷◌, ◌++◌, ℤ, pos, negsuc, leb, Bool-cases, inl, inr, Action, Result,
  ok, thrown, running, follow, codes, codes,
}
use cpr.Os.{Os}
use cpr.Inet.{Resolver, localport, bind_port}
use cpr.Protocol.{PName}
use cpr.Fork.{ForkOs}
use cpr.Echo.Server.{Server, on_buf, announce, bind_server, print, print_int}

module _ (os : Os) (fos : ForkOs) (net : Resolver) (fuel : ℕ) where
  abbrev pub SameProcess : Server os.World fos.World → Server os.World fos.World → Type 0
  SameProcess s t = (t.child ≡ s.child) × (t.forks ≡ s.forks)

  abbrev pub KeepsForks : {A : Type 0} → Action (Server os.World fos.World) A → Type 0
  KeepsForks m = (s : Server os.World fos.World) → SameProcess s (m s).1

  follow-forks :
      {A B : Type 0} (f : Server os.World fos.World) (k : A → Action (Server os.World fos.World) B)
      (r : Result A × Server os.World fos.World)
      → SameProcess f r.1
      → ((a : A) → KeepsForks (k a))
      → SameProcess f (follow k r).1
  follow-forks f k (ok a, t) (c, e) q = ((q a t).0 ∙ c, (q a t).1 ∙ e)
  follow-forks f k (thrown x, t) e q = e
  follow-forks f k (running, t) e q = e

  announce-forks : KeepsForks (announce os fos net fuel)
  unfolding announce
  announce-forks s =
      follow-forks s with_host _ (refl, refl)
        (λ host t.
          follow-forks t with_port (on_buf (localport os) (put_host host t)) (refl, refl)
            (λ port u. (refl, refl)))
    where
      put_host : List ℕ → Server os.World fos.World → Server os.World fos.World
      put_host host t = record t { cout = t.cout ++ (host ++ (10 ∷ codes "Port: ")) }

      with_port : ℤ → Action (Server os.World fos.World) (Unit {0})
      with_port port = print os fos net fuel (print_int port ++ 10 ∷ [])

      with_host : List ℕ → Action (Server os.World fos.World) (Unit {0})
      with_host host t = follow with_port (on_buf (localport os) (put_host host t))

  pub bind_server-forks :
      (pn : PName) (portno : ℤ) → KeepsForks (bind_server os fos net fuel pn portno)
  unfolding bind_server
  bind_server-forks pn (negsuc n) s = (refl, refl)
  bind_server-forks pn (pos n) s = elim (Bool-cases (leb n 1024)) [
    | inl b ↦ rw b (
        follow-forks s (λ _. announce os fos net fuel) (on_buf (bind_port os 0) s) (refl, refl)
          (λ _. announce-forks))
    | inr b ↦ rw b (refl, refl)
  ]
