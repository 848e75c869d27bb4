-- ===== src/Streaming/Parser.antt =====
-- `SSEStreamParser` of durallm/streaming/parser.py. A chunk is a list of bytes, a text is a list of
-- code points, and `loads` is `json.loads`, with none where it raises.
use durallm.Common.{
  ℕ, Bool, true, false, Option, none, some, List, [], ◌∷◌, ◌++◌, nat_beq, if◌then◌else◌,
}
use durallm.Common.Text.{codes, after_prefix, strip, join_lines}
use durallm.Streaming.Utf8.{decode}

pub record ParsedSseEvent (Json : Type 0) : Type 0 where
  pub event : List ℕ
  pub text : List ℕ  -- `data`
  pub json_data : Option Json
  pub is_done : Bool

-- What the lines read so far have set.
pub record Fields : Type 0 where
  pub event_type : List ℕ
  pub data_lines : List (List ℕ)

pub record SseStreamParser : Type 0 where
  pub buffer : List ℕ
  pub fields : Fields

abbrev pub new_fields : Fields
new_fields = record { event_type = codes "message"; data_lines = [] }

-- `SSEStreamParser.__init__`
abbrev pub new_parser : SseStreamParser
new_parser = record { buffer = []; fields = new_fields }

-- The carriage return at the end of a line is dropped.
unfoldable pub trim_return : List ℕ → List ℕ
trim_return [] = []
trim_return (c ∷ []) = if nat_beq c 13 then [] else c ∷ []
trim_return (c ∷ d ∷ s) = c ∷ trim_return (d ∷ s)

-- The effect of a line that is neither blank nor a comment.
unfoldable pub field_line : List ℕ → Fields → Fields
unfolding after_prefix strip
field_line line f = elim (after_prefix (codes "event:") line) [
  | some rest ↦ record f { event_type = strip rest }
  | none ↦ elim (after_prefix (codes "data:") line) [
    | some rest ↦ record f { data_lines = f.data_lines ++ strip rest ∷ [] }
    | none ↦ f
  ]
]

unfoldable pub text_line : List ℕ → Fields → Fields
unfolding field_line
text_line line f = elim (after_prefix (codes ":") line) [ some rest ↦ f | none ↦ field_line line f ]

abbrev same : List ℕ → List ℕ → Bool
same [] [] = true
same (c ∷ s) (d ∷ t) = elim (nat_beq c d) [ true ↦ same s t | false ↦ false ]
same _ _ = false

-- The test for the marker of the end of the stream
unfoldable pub is_done_text : List ℕ → Bool
unfolding strip
is_done_text data_str = same (strip data_str) (codes "[DONE]")

module _ {Json : Type 0} (loads : List ℕ → Option Json) where
  abbrev parsed : List ℕ → Option Json
  parsed [] = none
  parsed (c ∷ s) = if is_done_text (c ∷ s) then none else loads (c ∷ s)

  -- The event of the lines of data, if there are any.
  unfoldable pub dispatch : Fields → List (ParsedSseEvent Json)
  unfolding is_done_text join_lines
  dispatch f = elim f.data_lines [
    | [] ↦ []
    | l ∷ ls ↦
        let data_str = join_lines (l ∷ ls) in
        record {
          event = f.event_type;
          text = data_str;
          json_data = parsed data_str;
          is_done = is_done_text data_str;
        }
        ∷ []
  ]

  -- After an event the fields are those of a new parser; without data they stay.
  unfoldable pub after_blank : Fields → Fields
  after_blank f = elim f.data_lines [ [] ↦ f | l ∷ ls ↦ new_fields ]

  -- A complete line without its line feed: the events and the fields after it, or none where it
  -- cannot be decoded.
  unfoldable pub line_step : List ℕ → Fields → Option (List (ParsedSseEvent Json) × Fields)
  unfolding dispatch after_blank text_line decode
  line_step [] f = some (dispatch f, after_blank f)
  line_step (c ∷ s) f = elim (decode (c ∷ s)) [
    | none ↦ none
    | some line ↦ some ([], text_line line f)
  ]

  -- The loop of `feed` over the buffer; `line` is the part of it read since the last line feed. A
  -- line that cannot be decoded is put back, without its carriage return, and ends the loop.
  unfoldable pub scan : Fields → List ℕ → List ℕ → List (ParsedSseEvent Json) × SseStreamParser
  unfolding line_step trim_return
  scan f line [] = ([], record { buffer = line; fields = f })
  scan f line (c ∷ s) = elim (nat_beq c 10) [
    | false ↦ scan f (line ++ c ∷ []) s
    | true ↦ elim (line_step (trim_return line) f) [
      | none ↦ ([], record { buffer = trim_return line ++ (10 ∷ s); fields = f })
      | some (events, f') ↦ let (events', p) = scan f' [] s in (events ++ events', p)
    ]
  ]

  -- `feed`, its generator run to its end
  unfoldable pub feed : List ℕ → SseStreamParser → List (ParsedSseEvent Json) × SseStreamParser
  unfolding scan
  feed chunk p = scan p.fields [] (p.buffer ++ chunk)

  unfoldable pub flush : SseStreamParser → List (ParsedSseEvent Json) × SseStreamParser
  unfolding dispatch
  flush p =
      (dispatch p.fields, record { buffer = []; fields = record p.fields { data_lines = [] } })
