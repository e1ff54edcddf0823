-- ===== src/Inet/Address.antt =====
-- The addresses of internet sockets, `sockinetaddr` (socket++/sockinet.h, socket++/sockinet.cpp), in
-- network byte order on a little-endian host. The resolver's functions are the parameter `Resolver`.
use cpr.Common.{
  ℕ, zero, suc, ◌+◌, ◌-◌, ◌*◌, ◌/◌, ◌%◌, ◌^◌, List, [], ◌∷◌, Option, none, some, Bool, false, ◌&&◌,
  ◌==◌, leb, String, Result, ok, thrown, running, err, if◌then◌else◌, get_or,
}
use cpr.Errno.{eaddrnotavail}
use cpr.Os.{InetAddr}

-- The hosts, services and protocols that the system knows. `inet_addr` returns its argument's
-- number, or `INADDR_NONE`; numbers are in network byte order.
pub record Resolver : Type 0 where
  pub inet_addr : List ℕ → ℕ
  -- The address and its type.
  pub gethostbyname : List ℕ → Option (ℕ × ℕ)
  pub gethostbyaddr : ℕ → ℕ → Option (Option (List ℕ))
  pub gethostname : Option (List ℕ)
  pub getservbyname : List ℕ → List ℕ → Option ℕ
  pub getprotobyname : List ℕ → Option ℕ

abbrev pub af_inet : ℕ
af_inet = 2

abbrev pub inaddr_none : ℕ
inaddr_none = 2 ^ 32 - 1

-- Two bytes swapped, and four bytes turned round.
unfoldable pub htons : ℕ → ℕ
htons n = (n % 256) * 256 + n / 256 % 256

unfoldable pub htonl : ℕ → ℕ
htonl n =
    (n % 256) * 2 ^ 24 + (n / 256 % 256) * 2 ^ 16 + (n / 2 ^ 16 % 256) * 256 + n / 2 ^ 24 % 256

abbrev pub is_digit : ℕ → Bool
is_digit c = leb 48 c && leb c 57

-- `atoi` on text that begins with a digit; `n` is the value of the digits before.
unfoldable pub atoi : ℕ → List ℕ → ℕ
atoi n [] = n
atoi n (c ∷ cs) = let rest = atoi (n * 10 + (c - 48)) cs in if is_digit c then rest else n

abbrev pub address_error : {A : Type 0} → String → Result A
address_error operation =
    thrown (err (record { code = eaddrnotavail; operation = operation; specification = [] }))

-- The number in `n` bytes of memory from `i` on, and zeros behind the text.
abbrev pub bytes_at : ℕ → ℕ → List ℕ → ℕ
bytes_at i zero xs = 0
bytes_at i (suc n) xs = get_or xs i 0 + 256 * bytes_at (suc i) n xs

-- The constructors of `sockinetaddr`, and the two functions they use.
abbrev pub any_address : InetAddr
any_address = record { sin_family = af_inet; sin_port = 0; sin_addr = htonl 0 }

unfoldable pub from_number : ℕ → ℕ → InetAddr
from_number addr port_no = record {
  sin_family = af_inet;
  sin_port = htons port_no;
  sin_addr = htonl addr;
}

-- The copy constructor.
unfoldable pub copy_address : InetAddr → InetAddr
copy_address sina = record {
  sin_family = af_inet;
  sin_port = sina.sin_port;
  sin_addr = sina.sin_addr;
}

unfoldable pub getport : InetAddr → ℕ
getport sa = htons sa.sin_port

abbrev pub known_service : Option ℕ → Result ℕ
known_service none = address_error "sockinetaddr::setport"
known_service (some port) = ok port

abbrev pub starts_with_digit : List ℕ → Bool
starts_with_digit [] = false
starts_with_digit (c ∷ cs) = is_digit c

abbrev pub known_host : Option (ℕ × ℕ) → Result (ℕ × ℕ)
known_host none = address_error "sockinetaddr::setaddr"
known_host (some host) = ok host

abbrev pub map_result : {A B : Type 0} → (A → B) → Result A → Result B
map_result f (ok a) = ok (f a)
map_result f (thrown e) = thrown e
map_result f running = running

abbrev pub then_result : {A B : Type 0} → Result A → (A → Result B) → Result B
then_result (ok a) f = f a
then_result (thrown e) f = thrown e
then_result running f = running

module _ (net : Resolver) where
  -- The port that `setport` stores.
  unfoldable pub setport : List ℕ → List ℕ → Result ℕ
  setport sn pn =
      if starts_with_digit sn
      then ok (htons (atoi 0 sn))
      else known_service (net.getservbyname sn pn)

  -- The address and the family that `setaddr` stores.
  unfoldable pub setaddr : List ℕ → Result (ℕ × ℕ)
  setaddr host_name =
      if net.inet_addr host_name == inaddr_none
      then known_host (net.gethostbyname host_name)
      else ok (net.inet_addr host_name, af_inet)

  unfoldable pub from_service : ℕ → List ℕ → List ℕ → Result InetAddr
  from_service addr sn pn =
      map_result (λ port. record { sin_family = af_inet; sin_port = port; sin_addr = htonl addr })
        (setport sn pn)

  unfoldable pub from_host : List ℕ → ℕ → Result InetAddr
  from_host host_name port_no =
      map_result
        (λ host. record { sin_family = host.1; sin_port = htons port_no; sin_addr = host.0 })
        (setaddr host_name)

  unfoldable pub from_names : List ℕ → List ℕ → List ℕ → Result InetAddr
  from_names hn sn pn = then_result (setaddr hn) (λ host.
      map_result (λ port. record { sin_family = host.1; sin_port = port; sin_addr = host.0 })
        (setport sn pn))

  abbrev pub name_or_empty : Option (Option (List ℕ)) → List ℕ
  name_or_empty none = []
  name_or_empty (some none) = []
  name_or_empty (some (some name)) = name

  abbrev pub own_name : Option (List ℕ) → List ℕ
  own_name none = []
  own_name (some name) = name

  unfoldable pub gethostname : InetAddr → List ℕ
  gethostname sa =
      if sa.sin_addr == htonl 0
      then own_name net.gethostname
      else name_or_empty (net.gethostbyaddr sa.sin_addr sa.sin_family)
