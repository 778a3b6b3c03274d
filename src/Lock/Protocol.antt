-- ===== src/Lock/Protocol.antt =====
-- `command` and `readValue` of internal/lock/redis.go, with their copies `redisCommand` and
-- `readRedisValue` of internal/api/token_session.go: the protocol of Redis. A Go string is a list of
-- bytes here; what a reader has yet to give is a list too, and its end is an error.
use woms.Base.{
  ℕ, zero, suc, Bool, ◌&&◌, not, Option, none, some, List, [], ◌∷◌, ◌++◌, ◌==◌, if◌then◌else◌,
  length,
}
use woms.Base.Int.{ℤ, pos, negsuc}
use woms.Base.Integers.{signed_number}
use woms.Base.Text.{codes, itoa}

abbrev pub Bytes : Type 0
Bytes = List ℕ

abbrev pub crlf : Bytes
crlf = 13 ∷ 10 ∷ []

-- `strconv.Itoa`
abbrev decimal : ℕ → Bytes
decimal n = codes (itoa n)

unfoldable pub write_arg : Bytes → Bytes
unfolding itoa
write_arg arg = b'$' ∷ (decimal (length arg) ++ (crlf ++ (arg ++ crlf)))

unfoldable pub write_args : List Bytes → Bytes
unfolding write_arg
write_args [] = []
write_args (arg ∷ args) = write_arg arg ++ write_args args

unfoldable pub command : List Bytes → Bytes
unfolding write_args itoa
command args = b'*' ∷ (decimal (length args) ++ (crlf ++ write_args args))

-- What a reply holds: `missing` is a bulk string of negative length, which stands for an absent key.
pub data Reply : Type 0 where
  value : Bytes → Reply
  missing : Reply
  refused : Bytes → Reply
  io_error : Reply

-- `ReadString('\n')`, without its last byte; `none` at the end of the input.
unfoldable pub read_line : Bytes → Option (Bytes × Bytes)
read_line [] = none
read_line (c ∷ rest) = elim (read_line rest) [
  | some (line, after) ↦ if c == 10 then some ([], rest) else some (c ∷ line, after)
  | none ↦ if c == 10 then some ([], rest) else none
]

-- `strings.TrimSuffix(line, "\r")`
unfoldable pub trim_cr : Bytes → Bytes
trim_cr [] = []
trim_cr (c ∷ []) = if c == 13 then [] else c ∷ []
trim_cr (c ∷ d ∷ rest) = c ∷ trim_cr (d ∷ rest)

-- `io.ReadFull` of a buffer of so many bytes.
unfoldable pub read_full : ℕ → Bytes → Option (Bytes × Bytes)
read_full zero input = some ([], input)
read_full (suc n) [] = none
read_full (suc n) (c ∷ input) = elim (read_full n input) [
  | none ↦ none
  | some (buf, after) ↦ some (c ∷ buf, after)
]

-- `buf[:length]` and the two bytes behind it. `strict` is the check of the terminator that only
-- `readRedisValue` makes.
abbrev body_of : Bool → Option (Bytes × Bytes) → Option (Bytes × Bytes) → Reply × Bytes
body_of strict none end = (io_error, [])
body_of strict (some (body, rest)) none = (io_error, [])
body_of strict (some (body, rest)) (some (a ∷ b ∷ [], after)) =
    if strict && not (a == 13 && b == 10) then (refused [], after) else (value body, after)
body_of strict (some (body, rest)) (some (other, after)) = (io_error, [])

abbrev rest_of : Option (Bytes × Bytes) → Bytes
rest_of none = []
rest_of (some (body, rest)) = rest

abbrev read_bulk : Bool → Option ℤ → Bytes → Reply × Bytes
read_bulk strict none input = (io_error, input)
read_bulk strict (some (negsuc n)) input = (missing, input)
read_bulk strict (some (pos n)) input =
    body_of strict (read_full n input) (read_full 2 (rest_of (read_full n input)))

abbrev by_prefix : Bool → ℕ → Bytes → Bytes → Reply × Bytes
by_prefix strict prefix line input =
    if prefix == b'+'
    then (value line, input)
    else if prefix == b'-'
    then (refused line, input)
    else if prefix == b':'
    then (value line, input)
    else if prefix == b'$'
    then read_bulk strict (signed_number line) input
    else (io_error, input)

abbrev after_line : Bool → ℕ → Option (Bytes × Bytes) → Reply × Bytes
after_line strict prefix none = (io_error, [])
after_line strict prefix (some (line, input)) = by_prefix strict prefix (trim_cr line) input

unfoldable pub read_value : Bool → Bytes → Reply × Bytes
unfolding read_line trim_cr read_full signed_number
read_value strict [] = (io_error, [])
read_value strict (prefix ∷ input) = after_line strict prefix (read_line input)
