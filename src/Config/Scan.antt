-- ===== src/Config/Scan.antt =====
-- control/src/config.c: the loops of `state_read_param`, `state_read_identifier` and
-- `state_read_value` over the bytes from the cursor on, and `state_read_line`.
use cnc_robot_control.Common.{
  ℕ, ◌+◌, ◌-◌, Bool, ◌||◌, List, [], ◌∷◌, ◌++◌, ltb, ◌==◌, if◌then◌else◌, length, drop,
}
use cnc_robot_control.Config.Chars.{Bytes, islower, isalnum, isblank}
use cnc_robot_control.Config.Types.{
  State, read_param, read_identifier, set_identifier, check_param, set_param, read_value, cleanup,
  finished, error, Message, param_too_long, identifier_too_long, value_too_long, bad_param_char,
  bad_identifier_char, bad_value_char, getline_failed, Line, line, read_error, Machine,
  param_max_len,
}

-- What a loop leaves: the text read, the cursor, the next state and the message.
pub record Scan : Type 0 where
  pub text : Bytes
  pub cursor : ℕ
  pub next : State
  pub message : Message

abbrev stop_at : Bytes → ℕ → State → Message → Scan
stop_at text cursor next message = record {
  text = text;
  cursor = cursor;
  next = next;
  message = message;
}

-- The arguments are the state and message that stay if no byte ends the loop, the bytes from the
-- cursor to the end of the buffer, the text so far, and the cursor.
unfoldable pub scan_param : Message → Bytes → Bytes → ℕ → Scan
scan_param msg [] text i = stop_at text i read_param msg
scan_param msg (c ∷ cs) text i =
    let more = scan_param msg cs (text ++ c ∷ []) (i + 1) in
    if islower c || c == b'_'
    then if ltb (length text) (param_max_len - 1) then more else stop_at text i error param_too_long
    else if c == b'='
    then stop_at text i check_param msg
    else if c == b'['
    then stop_at text i read_identifier msg
    else if c == b'#' || isblank c || c == b'\n'
    then stop_at text i cleanup msg
    else stop_at text i error (bad_param_char c)

unfoldable pub scan_identifier : Message → Bytes → Bytes → ℕ → Scan
scan_identifier msg [] text i = stop_at text i read_identifier msg
scan_identifier msg (c ∷ cs) text i =
    let more = scan_identifier msg cs (text ++ c ∷ []) (i + 1) in
    if islower c
    then if ltb (length text) (param_max_len - 1)
      then more
      else stop_at text i error identifier_too_long
    else if c == b']'
    then stop_at text i set_identifier msg
    else stop_at text i error (bad_identifier_char c)

-- The bytes that a value or the name of a motor may hold.
abbrev pub is_value_char : ℕ → Bool
is_value_char c = isalnum c || c == b'-' || c == b'_'

abbrev pub ends_value : ℕ → Bool
ends_value c = isblank c || c == b'#' || c == b'\n'

unfoldable pub scan_value : Message → Bytes → Bytes → ℕ → Scan
scan_value msg [] text i = stop_at text i read_value msg
scan_value msg (c ∷ cs) text i =
    let more = scan_value msg cs (text ++ c ∷ []) (i + 1) in
    if is_value_char c
    then if ltb (length text) (param_max_len - 1) then more else stop_at text i error value_too_long
    else if ends_value c
    then stop_at text i set_param msg
    else stop_at text i error (bad_value_char c)

-- `(*offset)++` and the terminator stand behind the loop.
unfoldable pub state_read_param : Machine → Machine
unfolding scan_param
state_read_param m =
    let s = scan_param m.err_str (drop m.offset m.line_buff) [] m.offset in
    record m { state = s.next; err_str = s.message; param = s.text; offset = s.cursor + 1 }

unfoldable pub state_read_identifier : Machine → Machine
unfolding scan_identifier
state_read_identifier m =
    let s = scan_identifier m.err_str (drop m.offset m.line_buff) [] m.offset in
    record m { state = s.next; err_str = s.message; param = s.text; offset = s.cursor + 1 }

unfoldable pub state_read_value : Machine → Machine
unfolding scan_value
state_read_value m =
    let s = scan_value m.err_str (drop m.offset m.line_buff) [] m.offset in
    record m { state = s.next; err_str = s.message; value = s.text; offset = s.cursor + 1 }

-- `getline` sets the buffer to the line, its terminator, and what else was allocated.
take_line : List Line → Machine → Machine
take_line [] m = record m { state = finished }
take_line (read_error ∷ rest) m = record m { state = error; err_str = getline_failed; file = rest }
take_line (line text slack ∷ rest) m = record m {
  state = read_param;
  file = rest;
  line_buff = text ++ (0 ∷ slack);
}

unfoldable pub state_read_line : Machine → Machine
unfolding take_line
state_read_line m = take_line m.file m
