-- ===== src/Tests/Streaming.antt =====
-- An event that comes in two chunks, and a line that is no text.
use durallm.Common.{ℕ, ◌≡◌, refl, Option, some, List, [], ◌∷◌, length}
use durallm.Common.Text.{codes}
use durallm.Streaming.Parser.{SseStreamParser, new_parser, feed, line_step, new_fields, trim_return}
use durallm.Streaming.Chunks.{feed_all, concat, feed_all-eq-feed, feed_all-stuck}

-- Every text is its own JSON.
abbrev loads : List ℕ → Option (List ℕ)
loads s = some s

abbrev first_chunk : List ℕ
first_chunk = codes "event: delta\nda"

abbrev second_chunk : List ℕ
second_chunk = codes "ta: 12\r\n\n"

split_event_lem : length (feed_all loads (first_chunk ∷ second_chunk ∷ []) new_parser) ≡ 1
unfolding feed
split_event_lem = refl

feed_all-eq-feed_example :
    feed_all loads (first_chunk ∷ second_chunk ∷ []) new_parser
    ≡ (feed loads (concat loads (first_chunk ∷ second_chunk ∷ [])) new_parser).0
feed_all-eq-feed_example = feed_all-eq-feed loads first_chunk (second_chunk ∷ []) new_parser

abbrev broken : SseStreamParser
broken = record { buffer = 255 ∷ 10 ∷ []; fields = new_fields }

feed_all-stuck_example : feed_all loads (first_chunk ∷ second_chunk ∷ []) broken ≡ []
unfolding line_step trim_return
feed_all-stuck_example =
    feed_all-stuck loads (first_chunk ∷ second_chunk ∷ []) (255 ∷ []) [] broken (refl, tt) refl refl
