-- ===== src/CatServer.antt =====
-- core/src/network/cat_server.{h,cpp}: the server that answers other programs' CAT queries from the
-- radio's state, and forwards their commands to the radio. Sockets, `poll` and threads are events:
-- a successful `accept`, the bytes of a `recv`, the end of a connection.
pub mod Client
pub mod Clients
pub mod Answers
pub mod Relay
mod Tests
use mathlib.Core.List.{filter}
use ak.Base.{
  ℕ, ◌+◌, ◌-◌, Bool, true, false, ◌&&◌, Option, none, some, List, [], ◌∷◌, ◌++◌, ltb, leb, ◌==◌,
  if◌then◌else◌, length, take, drop, get_or,
}
use ak.Base.Int.{ℤ, pos, negsuc, ◌+ℤ◌, leb_ℤ}
use ak.Base.Text.{Bytes, codes, print_int, print_padded, decimal, snprintf, equal}
use ak.RadioState.{RadioStateData, get_vfo}

abbrev pub max_clients : ℕ
max_clients = 4

abbrev pub max_cmd_length : ℕ
max_cmd_length = 256

-- The radio's number for a mode of the program: `modeMap`.
abbrev pub mode_map : List ℕ
mode_map = 1 ∷ 2 ∷ 3 ∷ 7 ∷ 6 ∷ 9 ∷ 5 ∷ 4 ∷ []

unfoldable pub k4_mode : ℤ → ℕ
k4_mode (pos m) = if leb m 7 then get_or mode_map m 1 else 1
k4_mode (negsuc m) = 1

-- "?;\r\n" and "?N;\r\n".
abbrev pub unknown : Bytes
unknown = codes "?;\r\n"

abbrev pub not_connected : Bytes
not_connected = codes "?N;\r\n"

-- The answers to the queries.
unfoldable pub answer_frequency : Bytes → ℤ → Bytes
answer_frequency prefix freq = snprintf 20 (prefix ++ (print_padded 11 freq ++ (b';' ∷ [])))

unfoldable pub answer_mode : RadioStateData → Bytes
answer_mode s =
    snprintf 8 (codes "MD" ++ (decimal (k4_mode (get_vfo (pos 0) s).mode) ++ (b';' ∷ [])))

unfoldable pub answer_smeter : RadioStateData → Bytes
answer_smeter s =
    snprintf 12 (codes "SM0" ++ (print_padded 4 (get_vfo (pos 0) s).smeter ++ (b';' ∷ [])))

unfoldable pub answer_tx : RadioStateData → Bytes
answer_tx s = if s.tx.ptt then codes "TQ1;" else codes "TQ0;"

unfoldable pub answer_power : RadioStateData → Bytes
answer_power s = snprintf 12 (codes "PC" ++ (print_padded 3 s.tx.power_watts ++ (b';' ∷ [])))

-- The comprehensive status; RIT, XIT, the memory channel and the last six fields are zeros.
unfoldable pub answer_if : RadioStateData → Bytes
answer_if s =
    let vfo = get_vfo (pos 0) s in
    snprintf 48 (
      codes "IF"
      ++ (print_padded 11 vfo.frequency_hz
          ++ (codes "     "
              ++ (print_padded 5 vfo.tuning_rate
                  ++ (codes "000"
                      ++ (print_padded 2 (if s.tx.ptt then pos 1 else pos 0)
                          ++ (print_int (vfo.mode +ℤ pos 1) ++ codes "000000;")))))))

-- What a command is answered with, and whether it is handed to the `SendToRadioCallback`.
pub record Reply : Type 0 where
  pub response : Bytes
  pub forwards : Bool

abbrev answered : Bytes → Reply
answered t = record { response = t; forwards = false }

-- The part of `handleQuery` behind the queries, where `sends` says that a callback is set.
unfoldable pub handle_set : Bool → Reply
handle_set sends = if sends then record { response = []; forwards = true } else answered unknown

-- The queries proper, a prefix of two characters and ";". `None` of the radio state is a null
-- pointer.
unfoldable pub handle_query : Bool → Option RadioStateData → Bytes → Reply
handle_query sends radio command = if ltb (length command) 3 then answered unknown else elim radio [
  | none ↦ answered not_connected
  | some s ↦
      let prefix = take 2 command in
      if length command == 3 && equal (drop 2 command) (b';' ∷ [])
      then if equal prefix (codes "FA")
        then answered (answer_frequency (codes "FA") (get_vfo (pos 0) s).frequency_hz)
        else if equal prefix (codes "FB")
        then answered (answer_frequency (codes "FB") (get_vfo (pos 1) s).frequency_hz)
        else if equal prefix (codes "MD")
        then answered (answer_mode s)
        else if equal prefix (codes "SM")
        then answered (answer_smeter s)
        else if equal prefix (codes "TQ")
        then answered (answer_tx s)
        else if equal prefix (codes "PC")
        then answered (answer_power s)
        else if equal prefix (codes "IF")
        then answered (answer_if s)
        else handle_set sends
      else handle_set sends
]
