-- ===== src/Ftp/Text.antt =====
-- The texts of FTP (socket++/ftp.h, socket++/ftp.cpp): the tables of arguments, the search for the end
-- of a line, and the argument of `PORT`.
use cpr.Common.{
  ℕ, zero, suc, ◌/◌, ◌%◌, ◌^◌, List, [], ◌∷◌, ◌++◌, Bool, true, ◌&&◌, ◌==◌, if◌then◌else◌, get_or,
  codes, decimal,
}
use cpr.Os.{InetAddr}
use cpr.Inet.{htons}

pub data RepType : Type 0 where
  rt_ascii_nonprint rt_ascii_telnet rt_ascii_asa rt_ebcdic_nonprint : RepType
  rt_ebcdic_telnet rt_ebcdic_asa rt_image rt_local : RepType

pub data FileStru : Type 0 where
  fs_file fs_record fs_page : FileStru

pub data TransMode : Type 0 where
  tm_stream tm_block tm_comp : TransMode

-- The tables of the commands' arguments.
unfoldable pub reptype : RepType → List ℕ
reptype rt_ascii_nonprint = codes "A N"
reptype rt_ascii_telnet = codes "A T"
reptype rt_ascii_asa = codes "A C"
reptype rt_ebcdic_nonprint = codes "E N"
reptype rt_ebcdic_telnet = codes "E T"
reptype rt_ebcdic_asa = codes "E C"
reptype rt_image = codes "I"
reptype rt_local = codes "L "

unfoldable pub filestru : FileStru → List ℕ
filestru fs_file = codes "F"
filestru fs_record = codes "R"
filestru fs_page = codes "P"

unfoldable pub transmode : TransMode → List ℕ
transmode tm_stream = codes "S"
transmode tm_block = codes "B"
transmode tm_comp = codes "C"

abbrev pub rca_error : ℕ
rca_error = b'4'

-- The index behind the first <CRLF>, or the number of characters and one.
unfoldable pub skip_crlf : ℕ → List ℕ → ℕ
skip_crlf i [] = i
skip_crlf i (a ∷ []) = i
skip_crlf i (a ∷ b ∷ xs) = if (a == 13) && (b == 10) then i else skip_crlf (suc i) (b ∷ xs)

-- `strncpy` of `n` characters, and `strncmp (a, b, n) == 0`.
abbrev pub zeros : ℕ → List ℕ
zeros zero = []
zeros (suc n) = 0 ∷ zeros n

abbrev pub strncpy : ℕ → List ℕ → List ℕ
strncpy zero xs = []
strncpy (suc n) [] = 0 ∷ zeros n
strncpy (suc n) (x ∷ xs) = let rest = strncpy n xs in if x == 0 then 0 ∷ zeros n else x ∷ rest

abbrev pub same_prefix : ℕ → List ℕ → List ℕ → Bool
same_prefix zero xs ys = true
same_prefix (suc n) [] ys = get_or ys 0 0 == 0
same_prefix (suc n) (x ∷ xs) [] = x == 0
same_prefix (suc n) (x ∷ xs) (y ∷ ys) =
    let rest = same_prefix n xs ys in (x == y) && (if x == 0 then true else rest)

-- A number, a comma, and what follows.
abbrev pub before_comma : ℕ → List ℕ → List ℕ
before_comma n xs = decimal n ++ 44 ∷ xs

unfoldable pub port_text : ℕ → List ℕ
port_text portno = before_comma (portno / 256) (decimal (portno % 256))

-- `inet_ntoa` with its dots replaced by commas, behind it the two bytes of the port.
unfoldable pub port_address : InetAddr → List ℕ
unfolding port_text
port_address sa = before_comma (sa.sin_addr % 256) (
    before_comma (sa.sin_addr / 256 % 256) (
      before_comma (sa.sin_addr / 2 ^ 16 % 256)
        (before_comma (sa.sin_addr / 2 ^ 24 % 256) (port_text (htons sa.sin_port)))))
