-- ===== src/Oid.antt =====
-- src/bson/bson-oid.c and bson-oid.h: object ids, as the list of their twelve bytes.
-- Their generation, which asks the clock, the host name and the process, is left out.
pub mod Hex
pub mod Order
use libbson.Base.{
  ℕ, zero, suc, ◌+◌, ◌-◌, ◌*◌, ◌/◌, ◌%◌, ◌^◌, bit_or, Bool, true, false, ◌&&◌, ◌||◌, Option, none,
  some, List, [], ◌∷◌, ◌++◌, get_elem?, length, take, ltb, leb, ◌==◌, if◌then◌else◌, ◌>>=◌,
}
use libbson.Base.Words.{u32, le_bytes}

-- `memcmp`: the sign of the first difference.
pub data Sign : Type 0 where
  less same more : Sign

unfoldable pub memcmp : List ℕ → List ℕ → Sign
memcmp [] ys = same
memcmp (x ∷ xs) [] = same
memcmp (x ∷ xs) (y ∷ ys) =
    let rest = memcmp xs ys in if ltb x y then less else if ltb y x then more else rest

-- `bson_oid_compare`
unfoldable pub compare : List ℕ → List ℕ → Sign
compare oid1 oid2 = memcmp oid1 oid2

-- `bson_oid_equal`
unfoldable pub equal : List ℕ → List ℕ → Bool
equal oid1 oid2 = elim (memcmp oid1 oid2) [ same ↦ true | less ↦ false | more ↦ false ]

-- `bson_oid_hash`, over the bytes that are left.
unfoldable pub hash_loop : ℕ → List ℕ → ℕ
hash_loop hash [] = hash
hash_loop hash (b ∷ bytes) = hash_loop (u32 (u32 (hash * 2 ^ 5) + hash + b)) bytes

unfoldable pub hash : List ℕ → ℕ
unfolding hash_loop
hash oid = hash_loop 5381 oid

-- `bson_oid_get_time_t`: the first four bytes, the highest first.
unfoldable pub get_time_t : List ℕ → Option ℕ
get_time_t oid = do
  a ← get_elem? oid 0
  b ← get_elem? oid 1
  c ← get_elem? oid 2
  d ← get_elem? oid 3
  some (a * 2 ^ 24 + b * 2 ^ 16 + c * 2 ^ 8 + d)

-- `bson_oid_parse_hex_char`
unfoldable pub parse_hex_char : ℕ → ℕ
parse_hex_char hex =
    if leb b'0' hex && leb hex b'9'
    then hex - b'0'
    else if leb b'a' hex && leb hex b'f'
    then hex - b'a' + 10
    else if leb b'A' hex && leb hex b'F'
    then hex - b'A' + 10
    else 0

-- `bson_oid_init_from_string`: a byte for each of `n` pairs of digits. `none` is a read past them.
unfoldable pub parse_pairs : ℕ → List ℕ → Option (List ℕ)
parse_pairs zero str = some []
parse_pairs (suc n) [] = none
parse_pairs (suc n) (high ∷ []) = none
parse_pairs (suc n) (high ∷ low ∷ str) = do
  rest ← parse_pairs n str
  some ((bit_or (parse_hex_char high * 2 ^ 4) (parse_hex_char low) % 2 ^ 8) ∷ rest)

unfoldable pub init_from_string : List ℕ → Option (List ℕ)
init_from_string str = parse_pairs 12 str

-- `gHexCharPairs`, on a little-endian machine: the two digits of each byte.
abbrev hex_char_pairs : List ℕ
hex_char_pairs =
    12336 ∷ 12592 ∷ 12848 ∷ 13104 ∷ 13360 ∷ 13616 ∷ 13872 ∷ 14128 ∷ 14384 ∷ 14640 ∷ 24880 ∷ 25136
    ∷ 25392 ∷ 25648 ∷ 25904 ∷ 26160 ∷ 12337 ∷ 12593 ∷ 12849 ∷ 13105 ∷ 13361 ∷ 13617 ∷ 13873 ∷ 14129
    ∷ 14385 ∷ 14641 ∷ 24881 ∷ 25137 ∷ 25393 ∷ 25649 ∷ 25905 ∷ 26161 ∷ 12338 ∷ 12594 ∷ 12850 ∷ 13106
    ∷ 13362 ∷ 13618 ∷ 13874 ∷ 14130 ∷ 14386 ∷ 14642 ∷ 24882 ∷ 25138 ∷ 25394 ∷ 25650 ∷ 25906 ∷ 26162
    ∷ 12339 ∷ 12595 ∷ 12851 ∷ 13107 ∷ 13363 ∷ 13619 ∷ 13875 ∷ 14131 ∷ 14387 ∷ 14643 ∷ 24883 ∷ 25139
    ∷ 25395 ∷ 25651 ∷ 25907 ∷ 26163 ∷ 12340 ∷ 12596 ∷ 12852 ∷ 13108 ∷ 13364 ∷ 13620 ∷ 13876 ∷ 14132
    ∷ 14388 ∷ 14644 ∷ 24884 ∷ 25140 ∷ 25396 ∷ 25652 ∷ 25908 ∷ 26164 ∷ 12341 ∷ 12597 ∷ 12853 ∷ 13109
    ∷ 13365 ∷ 13621 ∷ 13877 ∷ 14133 ∷ 14389 ∷ 14645 ∷ 24885 ∷ 25141 ∷ 25397 ∷ 25653 ∷ 25909 ∷ 26165
    ∷ 12342 ∷ 12598 ∷ 12854 ∷ 13110 ∷ 13366 ∷ 13622 ∷ 13878 ∷ 14134 ∷ 14390 ∷ 14646 ∷ 24886 ∷ 25142
    ∷ 25398 ∷ 25654 ∷ 25910 ∷ 26166 ∷ 12343 ∷ 12599 ∷ 12855 ∷ 13111 ∷ 13367 ∷ 13623 ∷ 13879 ∷ 14135
    ∷ 14391 ∷ 14647 ∷ 24887 ∷ 25143 ∷ 25399 ∷ 25655 ∷ 25911 ∷ 26167 ∷ 12344 ∷ 12600 ∷ 12856 ∷ 13112
    ∷ 13368 ∷ 13624 ∷ 13880 ∷ 14136 ∷ 14392 ∷ 14648 ∷ 24888 ∷ 25144 ∷ 25400 ∷ 25656 ∷ 25912 ∷ 26168
    ∷ 12345 ∷ 12601 ∷ 12857 ∷ 13113 ∷ 13369 ∷ 13625 ∷ 13881 ∷ 14137 ∷ 14393 ∷ 14649 ∷ 24889 ∷ 25145
    ∷ 25401 ∷ 25657 ∷ 25913 ∷ 26169 ∷ 12385 ∷ 12641 ∷ 12897 ∷ 13153 ∷ 13409 ∷ 13665 ∷ 13921 ∷ 14177
    ∷ 14433 ∷ 14689 ∷ 24929 ∷ 25185 ∷ 25441 ∷ 25697 ∷ 25953 ∷ 26209 ∷ 12386 ∷ 12642 ∷ 12898 ∷ 13154
    ∷ 13410 ∷ 13666 ∷ 13922 ∷ 14178 ∷ 14434 ∷ 14690 ∷ 24930 ∷ 25186 ∷ 25442 ∷ 25698 ∷ 25954 ∷ 26210
    ∷ 12387 ∷ 12643 ∷ 12899 ∷ 13155 ∷ 13411 ∷ 13667 ∷ 13923 ∷ 14179 ∷ 14435 ∷ 14691 ∷ 24931 ∷ 25187
    ∷ 25443 ∷ 25699 ∷ 25955 ∷ 26211 ∷ 12388 ∷ 12644 ∷ 12900 ∷ 13156 ∷ 13412 ∷ 13668 ∷ 13924 ∷ 14180
    ∷ 14436 ∷ 14692 ∷ 24932 ∷ 25188 ∷ 25444 ∷ 25700 ∷ 25956 ∷ 26212 ∷ 12389 ∷ 12645 ∷ 12901 ∷ 13157
    ∷ 13413 ∷ 13669 ∷ 13925 ∷ 14181 ∷ 14437 ∷ 14693 ∷ 24933 ∷ 25189 ∷ 25445 ∷ 25701 ∷ 25957 ∷ 26213
    ∷ 12390 ∷ 12646 ∷ 12902 ∷ 13158 ∷ 13414 ∷ 13670 ∷ 13926 ∷ 14182 ∷ 14438 ∷ 14694 ∷ 24934 ∷ 25190
    ∷ 25446 ∷ 25702 ∷ 25958 ∷ 26214 ∷ []

-- `gHexCharPairs[b]`, stored as two bytes.
unfoldable pub hex_pair : ℕ → List ℕ
hex_pair b = elim (get_elem? hex_char_pairs b) [ none ↦ [] | some digits ↦ le_bytes 2 digits ]

-- `bson_oid_to_string`, without the NUL that it stores behind the digits.
unfoldable pub to_string : List ℕ → List ℕ
unfolding hex_pair
to_string [] = []
to_string (b ∷ bytes) = hex_pair b ++ to_string bytes

-- The `switch` of `bson_oid_is_valid`
unfoldable pub is_hex_char : ℕ → Bool
is_hex_char c =
    (leb b'0' c && leb c b'9') || (leb b'a' c && leb c b'f') || (leb b'A' c && leb c b'F')

unfoldable pub all_hex : List ℕ → Bool
unfolding is_hex_char
all_hex [] = true
all_hex (c ∷ str) = is_hex_char c && all_hex str

-- `bson_oid_is_valid`, on `length` bytes; a NUL may stand behind the digits.
unfoldable pub is_valid : List ℕ → Bool
unfolding all_hex
is_valid str =
    let with_nul : Bool = elim (get_elem? str 24) [ none ↦ false | some c ↦ c == 0 ] in
    let length' = if length str == 25 && with_nul then 24 else length str in
    if length' == 24 then all_hex (take 24 str) else false
