-- ===== src/Install/Prompt.antt =====
-- chooseDuplicate of internal/app/run.go: the question which of two targets to keep.
use ithiltir_node.Base.{Option, none, some, Text, text_eq, codes, trim_space, if◌then◌else◌}

-- What a reader of lines meets: a line, the end after some text, or a read error.
pub data Input : Type 0 where
  line : Text → Input → Input
  eof : Text → Input
  broken : Input

pub data Choice : Type 0 where
  keep_existing replace_existing : Choice

-- One try of chooseDuplicate's loop; `none` asks again.
read_choice : Text → Option Choice
read_choice s =
    if text_eq (trim_space s) (codes "1")
    then some keep_existing
    else if text_eq (trim_space s) (codes "2")
    then some replace_existing
    else none

choose_from : Input → Option Choice
unfolding read_choice
choose_from (line s rest) = elim (read_choice s) [ some c ↦ some c | none ↦ choose_from rest ]
choose_from (eof s) = read_choice s
choose_from broken = none

-- chooseDuplicate; `none` is its error.
unfoldable pub choose_duplicate : Option Input → Option Choice
unfolding choose_from
choose_duplicate none = none
choose_duplicate (some input) = choose_from input
