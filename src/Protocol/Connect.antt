-- ===== src/Protocol/Connect.antt =====
-- Where the four `connect` functions of a `protocolbuf` (socket++/protocol.cpp) lead, with the names
-- that socket++/sockinet.cpp asks the resolver for.
use cpr.Common.{
  ℕ, ◌%◌, ◌^◌, ◌≡◌, ◌≢◌, refl, sym, ap, ◌∙◌, List, true, false, ◌==◌, Option, none, some, Result,
  ok, thrown, running, err, sockoob, written, Bool-cases, ==_iff, ◌⊎◌, inl, inr, arith, follow,
  Action, [],
}
use cpr.Errno.{eprotonosupport}
use cpr.Os.{Os, Sys, done, fails, SockAddr, InetAddr, inet}
use cpr.Sockbuf.State.{Sock, settle, or_throw}
use cpr.Sockbuf.Lifecycle
use cpr.Inet.{
  Resolver, af_inet, inaddr_none, htonl, htons, atoi, getport, setport, setaddr, from_service,
  from_host, from_names, starts_with_digit, known_service, known_host, with_addr, inet_of, host_of,
  localhost, localaddr, connect_names, connect_service, connect_host, then_result, map_result,
}
use cpr.Protocol.{
  PName, nil, tcp, udp, protocol_name, connect_local, connect_to_number, connect_to_host,
  connect_to_port,
}

module _ (net : Resolver) where
  -- The address of a host and its type: its number in dotted form, or what its name stands for.
  abbrev pub HostAt : List ℕ → ℕ → ℕ → Type 0
  HostAt host addr family =
      ((net.inet_addr host ≢ inaddr_none) × (addr ≡ net.inet_addr host) × (family ≡ af_inet))
      ⊎ ((net.inet_addr host ≡ inaddr_none) × (net.gethostbyname host ≡ some (addr, family)))

  -- The port of a service, in network byte order: its number, or what its name stands for.
  abbrev pub ServiceAt : List ℕ → List ℕ → ℕ → Type 0
  ServiceAt sn pn port =
      ((starts_with_digit sn ≡ true) × (port ≡ htons (atoi 0 sn)))
      ⊎ ((starts_with_digit sn ≡ false) × (net.getservbyname sn pn ≡ some port))

  -- What is built is as `P` says, or an `err` is thrown.
  abbrev Built : {A : Type 0} → (A → Type 0) → Result A → Type 0
  Built P (ok a) = P a
  Built P (thrown (err e)) = Unit {0}
  Built P (thrown sockoob) = ⊥
  Built P (thrown (written n)) = ⊥
  Built P running = ⊥

  setport-Built : (sn pn : List ℕ) → Built (ServiceAt sn pn) (setport net sn pn)
  unfolding setport
  setport-Built sn pn = elim (Bool-cases (starts_with_digit sn)) [
    | inl b ↦ rw b (inl (b, refl))
    | inr b ↦ rw b (by_name (net.getservbyname sn pn) b refl)
  ]
    where
      by_name :
          (o : Option ℕ)
          → starts_with_digit sn ≡ false
          → net.getservbyname sn pn ≡ o
          → Built (ServiceAt sn pn) (known_service o)
      by_name none b e = tt
      by_name (some port) b e = inr (b, e)

  setaddr-Built : (host : List ℕ) → Built (λ a. HostAt host a.0 a.1) (setaddr net host)
  unfolding setaddr
  setaddr-Built host = elim (Bool-cases (net.inet_addr host == inaddr_none)) [
    | inl b ↦ rw b (by_name (net.gethostbyname host) b refl)
    | inr b ↦ rw b (inl ((λ e. ground (arith, b, e)), refl, refl))
  ]
    where
      by_name :
          (o : Option (ℕ × ℕ))
          → (net.inet_addr host == inaddr_none) ≡ true
          → net.gethostbyname host ≡ o
          → Built (λ a. HostAt host a.0 a.1) (known_host o)
      by_name none b e = tt
      by_name (some (addr, family)) b e = inr ((==_iff _ _).0 b, e)

  map_result-Built :
      {A B : Type 0} (P : A → Type 0) (Q : B → Type 0) (f : A → B) (r : Result A)
      → ((a : A) → P a → Q (f a))
      → Built P r
      → Built Q (map_result f r)
  map_result-Built P Q f (ok a) h b = h a b
  map_result-Built P Q f (thrown (err e)) h b = b
  map_result-Built P Q f (thrown sockoob) h b = b
  map_result-Built P Q f (thrown (written n)) h b = b
  map_result-Built P Q f running h b = b

  then_result-Built :
      {A B : Type 0} (P : A → Type 0) (Q : B → Type 0) (r : Result A) (f : A → Result B)
      → Built P r
      → ((a : A) → P a → Built Q (f a))
      → Built Q (then_result r f)
  then_result-Built P Q (ok a) f b h = h a b
  then_result-Built P Q (thrown (err e)) f b h = b
  then_result-Built P Q (thrown sockoob) f b h = b
  then_result-Built P Q (thrown (written n)) f b h = b
  then_result-Built P Q running f b h = b

  -- The addresses that the three ways to name a peer stand for.
  abbrev pub AtNames : List ℕ → List ℕ → List ℕ → InetAddr → Type 0
  AtNames host sn pn sa = HostAt host sa.sin_addr sa.sin_family × ServiceAt sn pn sa.sin_port

  abbrev pub AtPort : List ℕ → ℕ → InetAddr → Type 0
  AtPort host portno sa = HostAt host sa.sin_addr sa.sin_family × (getport sa ≡ portno % 2 ^ 16)

  abbrev pub AtNumber : ℕ → List ℕ → List ℕ → InetAddr → Type 0
  AtNumber addr sn pn sa =
      (sa.sin_addr ≡ htonl addr) × (sa.sin_family ≡ af_inet) × ServiceAt sn pn sa.sin_port

  from_names-Built : (host sn pn : List ℕ) → Built (AtNames host sn pn) (from_names net host sn pn)
  unfolding from_names
  from_names-Built host sn pn =
      then_result-Built (λ a. HostAt host a.0 a.1) (AtNames host sn pn) (setaddr net host) _
        (setaddr-Built host)
        (λ a h.
          map_result-Built (ServiceAt sn pn) (AtNames host sn pn) _ (setport net sn pn)
            (λ port q. (h, q)) (setport-Built sn pn))

  from_host-Built :
      (host : List ℕ) (portno : ℕ) → Built (AtPort host portno) (from_host net host portno)
  unfolding from_host getport htons
  from_host-Built host portno =
      map_result-Built (λ a. HostAt host a.0 a.1) (AtPort host portno) _ (setaddr net host)
        (λ a h. (h, omega arith)) (setaddr-Built host)

  from_service-Built :
      (addr : ℕ) (sn pn : List ℕ) → Built (AtNumber addr sn pn) (from_service net addr sn pn)
  unfolding from_service
  from_service-Built addr sn pn =
      map_result-Built (ServiceAt sn pn) (AtNumber addr sn pn) _ (setport net sn pn)
        (λ port q. (refl, refl, q)) (setport-Built sn pn)

-- What the theorem relies on: `connect` gives the descriptor the peer that it names, or none if it
-- fails, and `getsockname` leaves the peer alone.
pub record Peers (os : Os) (fd : ℕ) : Type 0 where
  pub peer : os.World → Option SockAddr
  pub connect_done :
      (sa : SockAddr) (w : os.World)
      → (os.connect fd sa w).0 ≡ done tt
      → peer (os.connect fd sa w).1 ≡ some sa
  pub connect_fails :
      (sa : SockAddr) (w : os.World) (e : ℕ)
      → (os.connect fd sa w).0 ≡ fails e
      → peer (os.connect fd sa w).1 ≡ peer w
  pub getsockname_keeps : (w : os.World) → peer (os.getsockname fd w).1 ≡ peer w

module _ (os : Os) (fd : ℕ) (peers : Peers os fd) (net : Resolver) where
  -- The peer behind a call, `P` being what its address has to be.
  abbrev pub Reaches :
      (InetAddr → Type 0) → Sock os.World → Result (Unit {0}) × Sock os.World → Type 0
  Reaches P s (ok _, t) = (sa : InetAddr) × P sa × (peers.peer t.world ≡ some (inet sa))
  Reaches P s (thrown (err e), t) = peers.peer t.world ≡ peers.peer s.world
  Reaches P s (thrown sockoob, t) = ⊥
  Reaches P s (thrown (written n), t) = ⊥
  Reaches P s (running, t) = ⊥

  connect-Reaches :
      (P : InetAddr → Type 0) (sa : InetAddr) (s : Sock os.World)
      → P sa
      → s.rep.sock ≡ fd
      → Reaches P s (Lifecycle.connect os (inet sa) s)
  unfolding Lifecycle.connect
  connect-Reaches P sa s p at =
      by_result (os.connect s.rep.sock (inet sa) s.world)
        (ap (λ d. os.connect d (inet sa) s.world) at)
    where
      by_result :
          (r : Sys (Unit {0}) × os.World)
          → r ≡ os.connect fd (inet sa) s.world
          → Reaches P s (let (o, t) = settle s r in or_throw "sockbuf::connect" o t)
      by_result (done _, w) e = (
        sa,
        p,
        ap (λ r. peers.peer r.1) e ∙ peers.connect_done (inet sa) s.world (sym (ap (λ r. r.0) e)),
      )
      by_result (fails n, w) e =
          ap (λ r. peers.peer r.1) e
          ∙ peers.connect_fails (inet sa) s.world n (sym (ap (λ r. r.0) e))

  with_addr-Reaches :
      (P : InetAddr → Type 0) (r : Result InetAddr) (s : Sock os.World)
      → Built net P r
      → s.rep.sock ≡ fd
      → Reaches P s (with_addr os (Lifecycle.connect os) r s)
  with_addr-Reaches P (ok sa) s b at = connect-Reaches P sa s b at
  with_addr-Reaches P (thrown (err e)) s b at = refl
  with_addr-Reaches P (thrown sockoob) s b at = b
  with_addr-Reaches P (thrown (written n)) s b at = b
  with_addr-Reaches P running s b at = b

  -- The name of the object's own address, if the system tells it.
  abbrev pub AtOwnHost : Sock os.World → List ℕ → List ℕ → InetAddr → Type 0
  AtOwnHost s sn pn sa =
      (own : SockAddr) × ((os.getsockname fd s.world).0 ≡ done own)
      × AtNames net (host_of os net (inet_of os own)) sn pn sa

  -- The protocol `nil` cannot connect, and the others do as `P` says.
  abbrev pub Connects :
      PName → (InetAddr → Type 0) → Sock os.World → Result (Unit {0}) × Sock os.World → Type 0
  Connects nil P s r =
      r ≡ (thrown (err (record { code = eprotonosupport; operation = ""; specification = [] })), s)
  Connects tcp P s r = Reaches P s r
  Connects udp P s r = Reaches P s r

  -- A call that has left the peer alone stands before.
  Reaches-behind :
      (P Q : InetAddr → Type 0) (s t : Sock os.World) (r : Result (Unit {0}) × Sock os.World)
      → ((sa : InetAddr) → P sa → Q sa)
      → peers.peer t.world ≡ peers.peer s.world
      → Reaches P t r
      → Reaches Q s r
  Reaches-behind P Q s t (ok _, u) h e (sa, p, q) = (sa, h sa p, q)
  Reaches-behind P Q s t (thrown (err x), u) h e q = q ∙ e
  Reaches-behind P Q s t (thrown sockoob, u) h e q = q
  Reaches-behind P Q s t (thrown (written n), u) h e q = q
  Reaches-behind P Q s t (running, u) h e q = q

  -- `connect ()` behind `localhost ()`.
  local-Reaches :
      (sn pn : List ℕ) (s : Sock os.World)
      → s.rep.sock ≡ fd
      → Reaches
          (AtOwnHost s sn pn)
          s
          (follow (λ host. connect_names os net host sn pn) (localhost os net s))
  unfolding localhost localaddr connect_names
  local-Reaches sn pn s at =
      by_result (os.getsockname s.rep.sock s.world) (ap (λ d. os.getsockname d s.world) at)
    where
      named : Option SockAddr → Action (Sock os.World) InetAddr
      named none t = (
        thrown (
            err (record {
              code = t.errno;
              operation = "sockinetbuf::localaddr";
              specification = [];
            })),
        t,
      )
      named (some sa) t = (ok (inet_of os sa), t)

      by_result :
          (r : Sys SockAddr × os.World)
          → r ≡ os.getsockname fd s.world
          → Reaches (AtOwnHost s sn pn) s (
              let (o, t) = settle s r in
              follow
                (λ host. connect_names os net host sn pn)
                (follow (λ sa u. (ok (host_of os net sa), u)) (named o t)))
      by_result (done own, w) e =
          Reaches-behind (AtNames net (host_of os net (inet_of os own)) sn pn) (AtOwnHost s sn pn) s
            (record s { world = w }) _ (λ sa q. (own, sym (ap (λ r. r.0) e), q))
            (ap (λ r. peers.peer r.1) e ∙ peers.getsockname_keeps s.world)
            (with_addr-Reaches _ _ (record s { world = w })
              (from_names-Built net (host_of os net (inet_of os own)) sn pn) at)
      by_result (fails n, w) e = ap (λ r. peers.peer r.1) e ∙ peers.getsockname_keeps s.world

  -- With the protocol `nil` the four `connect` functions throw `EPROTONOSUPPORT` and change
  -- nothing. Else, if one returns, the peer of the descriptor is the address that was named, as
  -- the resolver knows the host and the service `rfc_name ()`, or with the given port up to 16
  -- bits; `connect ()` goes to the host of the object's own address. If it throws, an `err`,
  -- the peer is as before.
  pub connect_calls-Connects :
      (rfc_name host : List ℕ) (pn : PName) (addr portno : ℕ) (s : Sock os.World)
      → s.rep.sock ≡ fd
      → Connects pn (AtOwnHost s rfc_name (protocol_name pn)) s (connect_local os net rfc_name pn s)
        × Connects pn
            (AtNumber net addr rfc_name (protocol_name pn))
            s
            (connect_to_number os net rfc_name pn addr s)
        × Connects pn
            (AtNames net host rfc_name (protocol_name pn))
            s
            (connect_to_host os net rfc_name pn host s)
        × Connects pn (AtPort net host portno) s (connect_to_port os net rfc_name pn host portno s)
  unfolding connect_local connect_to_number connect_to_host connect_to_port connect_names
      connect_service connect_host
  connect_calls-Connects rfc_name host nil addr portno s at = (refl, refl, refl, refl)
  connect_calls-Connects rfc_name host tcp addr portno s at = (
    local-Reaches rfc_name (protocol_name tcp) s at,
    with_addr-Reaches _ _ s (from_service-Built net addr rfc_name (protocol_name tcp)) at,
    with_addr-Reaches _ _ s (from_names-Built net host rfc_name (protocol_name tcp)) at,
    with_addr-Reaches _ _ s (from_host-Built net host portno) at,
  )
  connect_calls-Connects rfc_name host udp addr portno s at = (
    local-Reaches rfc_name (protocol_name udp) s at,
    with_addr-Reaches _ _ s (from_service-Built net addr rfc_name (protocol_name udp)) at,
    with_addr-Reaches _ _ s (from_names-Built net host rfc_name (protocol_name udp)) at,
    with_addr-Reaches _ _ s (from_host-Built net host portno) at,
  )
