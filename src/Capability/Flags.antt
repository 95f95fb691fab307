-- ===== src/Capability/Flags.antt =====
-- `Rights` of kernel/src/capability.rs: the rights of a capability as a 32-bit set of flags.
use Prim.Native.Nat.{bit_and, bit_or}
use pickle_os.Base.{ℕ, ◌^◌, Bool, ◌==◌}

abbrev pub Rights : Type 0
Rights = ℕ

abbrev pub none_right : Rights
none_right = 0

abbrev pub send_right : Rights
send_right = 2 ^ 0

abbrev pub recv_right : Rights
recv_right = 2 ^ 1

abbrev pub read_right : Rights
read_right = 2 ^ 2

abbrev pub write_right : Rights
write_right = 2 ^ 3

abbrev pub grant_right : Rights
grant_right = 2 ^ 4

abbrev pub all_rights : Rights
all_rights = 0b11111

unfoldable pub union : Rights → Rights → Rights
union a b = bit_or a b

unfoldable pub intersect : Rights → Rights → Rights
intersect a b = bit_and a b

unfoldable pub contains : Rights → Rights → Bool
contains held needed = bit_and held needed == needed
