-- ===== src/Validation/Symbol.antt =====
-- validation.rs, `ValidatedSymbol`: up to ten ASCII bytes, padded with NUL bytes.
pub mod RoundTrip
use sns_kongswap_adaptor.Base.{
  ℕ, ◌+◌, ◌/◌, ◌%◌, min, Bool, ◌&&◌, ◌||◌, List, [], ◌∷◌, ◌++◌, ltb, leb, ◌==◌, if◌then◌else◌, not,
  length, take, drop, replicate, all,
}
use sns_kongswap_adaptor.Base.Text.{Text, str, decimal, debug_bytes, text_eq}
use sns_kongswap_adaptor.Base.Result.{Result, ok, err}

abbrev pub max_symbol_bytes : ℕ
max_symbol_bytes = 10

pub record ValidatedSymbol : Type 0 where
  pub repr : List ℕ

abbrev pub symbol_eq : ValidatedSymbol → ValidatedSymbol → Bool
symbol_eq a b = text_eq a.repr b.repr

pub take_bytes : Text → List ℕ
take_bytes input =
    let copy_len = min (length input) max_symbol_bytes in
    take copy_len input ++ drop copy_len (replicate max_symbol_bytes 0)

-- `u8::is_ascii_graphic` holds from `!` to `~`.
pub is_valid_symbol_character : ℕ → Bool
is_valid_symbol_character b = b == 0 || (leb b'!' b && leb b b'~')

-- `TryFrom<[u8; 10]>`.
pub try_from_bytes : List ℕ → Result ValidatedSymbol Text
try_from_bytes value =
    if not (all is_valid_symbol_character value)
    then err (str "Symbol must be ASCII and graphic; got " ++ debug_bytes value)
    else ok (record { repr = value })

-- `TryFrom<&str>` and `TryFrom<String>`.
unfoldable pub try_from_text : Text → Result ValidatedSymbol Text
unfolding take_bytes try_from_bytes is_valid_symbol_character
try_from_text value =
    if ltb max_symbol_bytes (length value)
    then err (
        str "Symbol must not exceed "
        ++ (decimal max_symbol_bytes
            ++ (str " bytes or characters, got " ++ (decimal (length value) ++ str " bytes."))))
    else try_from_bytes (take_bytes value)

-- `c as char`, pushed on a string: one byte of UTF-8 below 128, two from there.
char_bytes : ℕ → Text
char_bytes c = if ltb c 128 then c ∷ [] else (192 + c / 64) ∷ (128 + c % 64) ∷ []

-- The loop over the bytes before the first NUL.
pub bytes_to_string : List ℕ → Text
bytes_to_string [] = []
bytes_to_string (b ∷ bs) = if b == 0 then [] else char_bytes b ++ bytes_to_string bs

-- `Display` and `Debug`.
unfoldable pub to_string : ValidatedSymbol → Text
unfolding bytes_to_string char_bytes
to_string s = bytes_to_string s.repr
