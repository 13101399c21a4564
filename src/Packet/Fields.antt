-- ===== src/Packet/Fields.antt =====
-- fsd/util.go: a packet is a line of fields parted by colons.
pub mod Join
pub mod Split
use openfsd.Prelude.{
  ℕ, zero, suc, ◌+◌, List, [], ◌∷◌, Option, none, some, drop, ◌==◌, if◌then◌else◌,
}
use openfsd.Prelude.Bytes.{Bytes, cut_crlf}
use mathlib.Core.Option

abbrev pub colon : ℕ
colon = b':'

-- `bytes.Count(packet, c)` for one character.
unfoldable pub count_byte : ℕ → Bytes → ℕ
count_byte b [] = 0
count_byte b (c ∷ s) = (if c == b then 1 else 0) + count_byte b s

-- `bytes.IndexByte`; none is -1.
unfoldable pub index_byte : ℕ → Bytes → Option ℕ
index_byte b [] = none
index_byte b (c ∷ s) = if c == b then some 0 else Option.map suc (index_byte b s)

unfoldable pub count_fields : Bytes → ℕ
unfolding count_byte
count_fields packet = count_byte colon packet + 1

-- `packet[IndexByte(packet, ':')+1:]`: with no colon the index is -1, and nothing is cut.
unfoldable pub rebase_to_next_field : Bytes → Bytes
unfolding index_byte
rebase_to_next_field packet = elim (index_byte colon packet) [
  | none ↦ packet
  | some i ↦ drop (i + 1) packet
]

-- The loop `for range index`.
unfoldable pub rebase_times : ℕ → Bytes → Bytes
unfolding rebase_to_next_field
rebase_times zero packet = packet
rebase_times (suc n) packet = rebase_times n (rebase_to_next_field packet)

-- `packet[:i]` at the first `b`, where there is one.
unfoldable pub cut_at : ℕ → Bytes → Bytes
cut_at b [] = []
cut_at b (c ∷ s) = if c == b then [] else c ∷ cut_at b s

unfoldable pub get_field : Bytes → ℕ → Bytes
unfolding rebase_times cut_at cut_crlf
get_field packet index = cut_crlf (cut_at colon (rebase_times index packet))
