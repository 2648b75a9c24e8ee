-- ===== src/Samples/Strings.antt =====
-- A printed form of addresses that is read back: the two numbers in unary.
use Prim.Native.Char.{Char, code}
use Prim.Native.String as Text
use riteraft_ng.Prelude.{
  ℕ, zero, suc, String, ◌≡◌, refl, Bool, true, false, Option, none, some, ◌==◌,
}
use riteraft_ng.Net.{Resolver, SocketAddr}

abbrev stroke : Char
stroke = "a"

abbrev stop : Char
stop = "b"

abbrev unary : ℕ → String → String
unary zero s = Text.◌∷◌ stop s
unary (suc n) s = Text.◌∷◌ stroke (unary n s)

abbrev one_more : Option (ℕ × String) → Option (ℕ × String)
one_more none = none
one_more (some (n, s)) = some (suc n, s)

abbrev digit : Bool → String → Option (ℕ × String) → Option (ℕ × String)
digit true s r = some (0, s)
digit false s r = one_more r

unfoldable pub read : String → Option (ℕ × String)
read Text.[] = none
read (Text.◌∷◌ c s) = digit (code c == 98) s (read s)

pub read-unary : (n : ℕ) (s : String) → read (unary n s) ≡ some (n, s)
unfolding read
read-unary zero s = refl
read-unary (suc n) s = rw (read-unary n s)

abbrev last_number : ℕ → Option (ℕ × String) → Option SocketAddr
last_number ip none = none
last_number ip (some (port, s)) = some (record { ip = ip; port = port })

abbrev both_numbers : Option (ℕ × String) → Option SocketAddr
both_numbers none = none
both_numbers (some (ip, s)) = last_number ip (read s)

abbrev pub print_addr : SocketAddr → String
print_addr a = unary a.ip (unary a.port "")

unfoldable pub parse_addr : String → Option SocketAddr
parse_addr s = both_numbers (read s)

pub parse_addr-print_addr : (a : SocketAddr) → parse_addr (print_addr a) ≡ some a
unfolding parse_addr
parse_addr-print_addr a = rw (read-unary a.ip (unary a.port ""), read-unary a.port "")

abbrev pub resolver : Resolver
resolver = record {
  resolve = parse_addr;
  parse = parse_addr;
  to_string = print_addr;
  resolve-to_string = parse_addr-print_addr;
  parse-to_string = parse_addr-print_addr;
}
