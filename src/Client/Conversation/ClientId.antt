-- ===== src/Client/Conversation/ClientId.antt =====
-- conversation.ts: `CLIENT_ID`, 1 to 128 of `A-Z a-z 0-9 . _ : ~ -`.
use Prim.Native.Char.{code}
use Prim.Native.String.{String}
use converger.Prelude.{ℕ, suc, Bool, true, ◌&&◌, ◌||◌, leb, nat_beq}

is_id_char : ℕ → Bool
is_id_char c =
    (leb b'A' c && leb c b'Z')
    || (leb b'a' c && leb c b'z')
    || (leb b'0' c && leb c b'9')
    || nat_beq c b'.'
    || nat_beq c b'_'
    || nat_beq c b':'
    || nat_beq c b'~'
    || nat_beq c b'-'

all_id_chars : String → Bool
all_id_chars String.[] = true
all_id_chars (String.◌∷◌ c s) = is_id_char (code c) && all_id_chars s

char_count : String → ℕ
char_count String.[] = 0
char_count (String.◌∷◌ c s) = suc (char_count s)

unfoldable pub client_id_ok : String → Bool
unfolding is_id_char all_id_chars char_count
client_id_ok s = all_id_chars s && leb 1 (char_count s) && leb (char_count s) 128
