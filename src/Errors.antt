-- ===== src/Errors.antt =====
-- The errors of the library (socket++/socketerr.h, socket++/socketerr.cpp): how an errno is
-- classified, and the text of an `err`, where USE_WINSOCK is not defined. A `switch` is the list of
-- its labels. What `strerror` returns is a parameter.
pub mod Classes
use cpr.Common.{ℕ, List, [], ◌∷◌, ◌++◌, Bool, true, false, ◌||◌, ◌&&◌, ◌==◌, if◌then◌else◌, codes}
use cpr.Errno.{
  ewouldblock, epipe, enametoolong, enotempty, eloop, eusers, enotsock, edestaddrreq, emsgsize,
  eprototype, enoprotoopt, eprotonosupport, esocktnosupport, eopnotsupp, epfnosupport, eafnosupport,
  eaddrinuse, eaddrnotavail, enetdown, enetunreach, enetreset, econnaborted, econnreset, enobufs,
  eisconn, enotconn, eshutdown, etoomanyrefs, etimedout, econnrefused, ehostdown, ehostunreach,
  ealready, einprogress, edquot,
}

pub data SocketErrc : Type 0 where
  success io benign argument address connection operational other : SocketErrc

-- Whether `e` is among the labels.
abbrev pub is_in : ℕ → List ℕ → Bool
is_in e [] = false
is_in e (c ∷ cs) = (e == c) || is_in e cs

abbrev pub io_errors : List ℕ
io_errors = einprogress ∷ ealready ∷ []

abbrev pub arg_errors : List ℕ
arg_errors =
    enotsock ∷ edestaddrreq ∷ emsgsize ∷ eprototype ∷ enoprotoopt ∷ eprotonosupport ∷ eopnotsupp
    ∷ eafnosupport ∷ esocktnosupport ∷ epfnosupport ∷ []

abbrev pub op_errors : List ℕ
op_errors =
    enetdown ∷ enetunreach ∷ enetreset ∷ econnaborted ∷ econnreset ∷ enobufs ∷ etimedout
    ∷ econnrefused ∷ eloop ∷ enametoolong ∷ enotempty ∷ ehostunreach ∷ eshutdown ∷ etoomanyrefs
    ∷ ehostdown ∷ eusers ∷ edquot ∷ []

abbrev pub conn_errors : List ℕ
conn_errors = epipe ∷ eisconn ∷ enotconn ∷ econnreset ∷ econnrefused ∷ etimedout ∷ []

abbrev pub addr_errors : List ℕ
addr_errors = eaddrinuse ∷ eaddrnotavail ∷ []

abbrev pub benign_errors : List ℕ
benign_errors = ewouldblock ∷ []

unfoldable pub sockerr_io : ℕ → Bool
sockerr_io e = is_in e io_errors

unfoldable pub sockerr_arg : ℕ → Bool
sockerr_arg e = is_in e arg_errors

unfoldable pub sockerr_op : ℕ → Bool
sockerr_op e = is_in e op_errors

unfoldable pub sockerr_conn : ℕ → Bool
sockerr_conn e = is_in e conn_errors

unfoldable pub sockerr_addr : ℕ → Bool
sockerr_addr e = is_in e addr_errors

unfoldable pub sockerr_benign : ℕ → Bool
sockerr_benign e = is_in e benign_errors

unfoldable pub default_error_condition : ℕ → SocketErrc
default_error_condition ev =
    if ev == 0
    then success
    else if sockerr_benign ev
    then benign
    else if sockerr_addr ev
    then address
    else if sockerr_conn ev
    then connection
    else if sockerr_op ev
    then operational
    else if sockerr_arg ev
    then argument
    else if sockerr_io ev
    then io
    else other

-- The value of a condition, by which two are compared.
abbrev pub value : SocketErrc → ℕ
value success = 0
value io = 1
value benign = 2
value argument = 3
value address = 4
value connection = 5
value operational = 6
value other = 7

abbrev pub has_condition : SocketErrc → ℕ → Bool
has_condition c errno = value (default_error_condition errno) == value c

-- An `std::error_code`; categories are compared by their addresses.
pub record ErrorCode : Type 0 where
  pub category : ℕ
  pub number : ℕ

-- `socket_error_category_t`, at the address `this`.
unfoldable pub name : List ℕ
name = codes "Socket++ Error"

unfoldable pub equivalent : ℕ → ErrorCode → ℕ → Bool
equivalent this code condition =
    (this == code.category) && (value (default_error_condition code.number) == condition)

unfoldable pub is_wsa_error : ℕ → Bool
is_wsa_error code = false

unfoldable pub message : (ℕ → List ℕ) → ℕ → List ℕ
message strerror ev =
    if is_wsa_error ev then codes "Error determining the error code type." else strerror ev

-- The number and the category of a condition, the latter at the address `category`.
unfoldable pub make_error_condition : ℕ → SocketErrc → ErrorCode
make_error_condition category e = record { category = category; number = value e }

-- `err::io ()` and the five others.
unfoldable pub err_io : ℕ → Bool
err_io = has_condition io

unfoldable pub err_arg : ℕ → Bool
err_arg = has_condition argument

unfoldable pub err_op : ℕ → Bool
err_op = has_condition operational

unfoldable pub err_conn : ℕ → Bool
err_conn = has_condition connection

unfoldable pub err_addr : ℕ → Bool
err_addr = has_condition address

unfoldable pub err_benign : ℕ → Bool
err_benign = has_condition benign

abbrev pub from_operation : List ℕ → List ℕ
from_operation [] = []
from_operation (c ∷ cs) = codes " from " ++ c ∷ cs

abbrev pub in_parentheses : List ℕ → List ℕ
in_parentheses [] = []
in_parentheses (c ∷ cs) = codes " (" ++ (c ∷ cs) ++ codes ")"

-- The member `text`, which `err::operation ()` returns.
unfoldable pub err_text : List ℕ → List ℕ → List ℕ
err_text operation specification = from_operation operation ++ in_parentheses specification

abbrev pub with_text : List ℕ → List ℕ → List ℕ
with_text message [] = message
with_text message (c ∷ cs) = message ++ c ∷ cs

unfoldable pub what : (ℕ → List ℕ) → ℕ → List ℕ → List ℕ → List ℕ
what strerror errno operation specification =
    with_text (message strerror errno) (err_text operation specification)
