-- ===== src/Streaming/Chunks.antt =====
-- Where the network cuts the stream into chunks makes no difference, and what a line that cannot be
-- decoded does.
use mathlib.Core.Path.{subst}
use mathlib.Core.List.{append_assoc, append-nil}
use durallm.Common.{
  ℕ, ◌≡◌, refl, sym, ap, ◌∙◌, ◌⊎◌, inl, inr, true, false, Option, none, some, List, [], ◌∷◌, ◌++◌,
  nat_beq, All, All-append, arith, Bool-cases, Option-cases, if_both, nat_beq_iff,
}
use durallm.Streaming.Utf8.{decode, decode-return}
use durallm.Streaming.Parser.{
  ParsedSseEvent, Fields, SseStreamParser, trim_return, line_step, scan, feed,
}

-- No byte of the line is a line feed.
abbrev pub OneLine : List ℕ → Type 0
OneLine line = All (λ c. nat_beq c 10 ≡ false) line

OneLine-trim : (line : List ℕ) → OneLine line → OneLine (trim_return line)
unfolding trim_return
OneLine-trim [] h = tt
OneLine-trim (c ∷ []) h = if_both OneLine (nat_beq c 13) tt h
OneLine-trim (c ∷ d ∷ s) h = (h.0, OneLine-trim (d ∷ s) h.1)

trim_cases : (line : List ℕ) → (trim_return line ≡ line) ⊎ (line ≡ trim_return line ++ 13 ∷ [])
unfolding trim_return
trim_cases [] = inl refl
trim_cases (c ∷ []) = elim (Bool-cases (nat_beq c 13)) [
  | inl e ↦ let same : c ≡ 13 = (nat_beq_iff c 13).0 e in inr (rw e (ap (λ x. x ∷ []) same))
  | inr e ↦ inl (rw e refl)
]
trim_cases (c ∷ d ∷ s) = elim (trim_cases (d ∷ s)) [
  | inl e ↦ inl (ap (◌∷◌ c) e)
  | inr e ↦ inr (ap (◌∷◌ c) e)
]

module _ {Json : Type 0} (loads : List ℕ → Option Json) where
  line_step-none :
      (c : ℕ) (s : List ℕ) (f : Fields) → line_step loads (c ∷ s) f ≡ none → decode (c ∷ s) ≡ none
  unfolding line_step
  line_step-none c s f h = ground arith

  none-line_step :
      (c : ℕ) (s : List ℕ) (f : Fields) → decode (c ∷ s) ≡ none → line_step loads (c ∷ s) f ≡ none
  unfolding line_step
  none-line_step c s f h = rw (h, line_step) refl

  decode_return_alone : decode (13 ∷ []) ≡ some (13 ∷ [])
  unfolding decode
  decode_return_alone = refl

  stuck-return :
      (line : List ℕ) (f : Fields)
      → line_step loads (line ++ 13 ∷ []) f ≡ none
      → line_step loads line f ≡ none
  stuck-return [] f h = let bad = line_step-none 13 [] f h in let good = decode_return_alone in cc
  stuck-return (c ∷ s) f h = elim (Option-cases (decode (c ∷ s))) [
    | inl e ↦ none-line_step c s f e
    | inr (cs, e) ↦
        let good = decode-return (c ∷ s) cs e in let bad = line_step-none c (s ++ 13 ∷ []) f h in cc
  ]

  stuck-trim :
      (line : List ℕ) (f : Fields)
      → line_step loads line f ≡ none
      → line_step loads (trim_return line) f ≡ none
  stuck-trim line f h = elim (trim_cases line) [
    | inl e ↦ subst (λ l. line_step loads l f ≡ none) (sym e) h
    | inr e ↦ stuck-return (trim_return line) f (subst (λ l. line_step loads l f ≡ none) e h)
  ]

  scan-byte :
      (f : Fields) (c : ℕ) (read s : List ℕ)
      → nat_beq c 10 ≡ false
      → scan loads f read (c ∷ s) ≡ scan loads f (read ++ c ∷ []) s
  unfolding scan
  scan-byte f c read s h = rw (h, scan) refl

  scan-line :
      (f : Fields) (line read ys : List ℕ)
      → OneLine line
      → scan loads f read (line ++ ys) ≡ scan loads f (read ++ line) ys
  scan-line f [] read ys h = ap (λ l. scan loads f l ys) (sym (append-nil read))
  scan-line f (c ∷ s) read ys h =
      scan-byte f c read (s ++ ys) h.0
      ∙ scan-line f s (read ++ c ∷ []) ys h.1
      ∙ ap (λ l. scan loads f l ys) (append_assoc read (c ∷ []) s)

  -- A line feed: the line is stuck, or it has its effect and the loop goes on.
  scan-stuck :
      (f : Fields) (c : ℕ) (read s : List ℕ)
      → nat_beq c 10 ≡ true
      → line_step loads (trim_return read) f ≡ none
      → scan loads f read (c ∷ s)
        ≡ ([], record { buffer = trim_return read ++ (10 ∷ s); fields = f })
  unfolding scan
  scan-stuck f c read s h e = rw (h, scan) (rw e refl)

  scan-good :
      (f f' : Fields) (events : List (ParsedSseEvent Json)) (c : ℕ) (read s : List ℕ)
      → nat_beq c 10 ≡ true
      → line_step loads (trim_return read) f ≡ some (events, f')
      → scan loads f read (c ∷ s) ≡ (events ++ (scan loads f' [] s).0, (scan loads f' [] s).1)
  unfolding scan
  scan-good f f' events c read s h e = rw (h, scan) (rw e refl)

  abbrev Events : Type 0
  Events = List (ParsedSseEvent Json) × SseStreamParser

  -- Scanning on from where a scan has ended.
  resume : Events → List ℕ → List (ParsedSseEvent Json) × Fields
  resume r ys =
      let (events, p) = scan loads r.1.fields [] (r.1.buffer ++ ys) in (r.0 ++ events, p.fields)

  abbrev outcome : Events → List (ParsedSseEvent Json) × Fields
  outcome r = (r.0, r.1.fields)

  -- The stuck line, put back, is stuck again.
  rescan :
      (f : Fields) (line xs ys : List ℕ)
      → OneLine line
      → line_step loads (trim_return line) f ≡ none
      → outcome (scan loads f [] ((trim_return line ++ (10 ∷ xs)) ++ ys)) ≡ ([], f)
  rescan f line xs ys h stuck =
      ap (λ zs. outcome (scan loads f [] zs)) (append_assoc (trim_return line) (10 ∷ xs) ys)
      ∙ ap outcome (scan-line f (trim_return line) [] (10 ∷ (xs ++ ys)) (OneLine-trim line h))
      ∙ ap outcome (
          scan-stuck f 10 (trim_return line) (xs ++ ys) refl
            (stuck-trim (trim_return line) f stuck))

  scan-append :
      (f : Fields) (read xs ys : List ℕ)
      → OneLine read
      → outcome (scan loads f read (xs ++ ys)) ≡ resume (scan loads f read xs) ys
  unfolding scan resume
  scan-append f read [] ys h = ap outcome (sym (scan-line f read [] ys h))
  scan-append f read (c ∷ xs) ys h = elim (Bool-cases (nat_beq c 10)) [
    | inr byte ↦
        ap outcome (scan-byte f c read (xs ++ ys) byte)
        ∙ scan-append f (read ++ c ∷ []) xs ys (All-append _ read (c ∷ []) h (byte, tt))
        ∙ ap (λ r. resume r ys) (sym (scan-byte f c read xs byte))
    | inl feed ↦ elim (Option-cases (line_step loads (trim_return read) f)) [
      | inl stuck ↦
          ap outcome (scan-stuck f c read (xs ++ ys) feed stuck)
          ∙ sym (rescan f read xs ys h stuck)
          ∙ ap (λ r. resume r ys) (sym (scan-stuck f c read xs feed stuck))
      | inr ((events, f'), good) ↦
          let r = scan loads f' [] xs in
          let next = scan loads r.1.fields [] (r.1.buffer ++ ys) in
          ap outcome (scan-good f f' events c read (xs ++ ys) feed good)
          ∙ ap (λ (o : List (ParsedSseEvent Json) × Fields). (events ++ o.0, o.1))
              (scan-append f' [] xs ys tt)
          ∙ ap (λ es. (es, next.1.fields)) (sym (append_assoc events r.0 next.0))
          ∙ ap (λ r'. resume r' ys) (sym (scan-good f f' events c read xs feed good))
    ]
  ]

  -- The events of chunks that arrive one after the other.
  abbrev pub feed_all : List (List ℕ) → SseStreamParser → List (ParsedSseEvent Json)
  feed_all [] p = []
  feed_all (chunk ∷ chunks) p = (feed loads chunk p).0 ++ feed_all chunks (feed loads chunk p).1

  abbrev pub concat : List (List ℕ) → List ℕ
  concat [] = []
  concat (chunk ∷ chunks) = chunk ++ concat chunks

  feed-append :
      (p : SseStreamParser) (xs ys : List ℕ)
      → (feed loads (xs ++ ys) p).0 ≡ (feed loads xs p).0 ++ (feed loads ys (feed loads xs p).1).0
  unfolding feed resume
  feed-append p xs ys =
      ap (λ zs. (scan loads p.fields [] zs).0) (sym (append_assoc p.buffer xs ys))
      ∙ ap (λ (o : List (ParsedSseEvent Json) × Fields). o.0)
          (scan-append p.fields [] (p.buffer ++ xs) ys tt)

  -- However the network cuts a stream into chunks, inside lines, at carriage returns or inside
  -- characters of several bytes, the parser yields the events of the stream in one piece.
  pub feed_all-eq-feed :
      (chunk : List ℕ) (chunks : List (List ℕ)) (p : SseStreamParser)
      → feed_all (chunk ∷ chunks) p ≡ (feed loads (concat (chunk ∷ chunks)) p).0
  feed_all-eq-feed chunk [] p =
      append-nil (feed loads chunk p).0 ∙ ap (λ c. (feed loads c p).0) (sym (append-nil chunk))
  feed_all-eq-feed chunk (next ∷ chunks) p =
      ap (λ es. (feed loads chunk p).0 ++ es) (feed_all-eq-feed next chunks (feed loads chunk p).1)
      ∙ sym (feed-append p chunk (concat (next ∷ chunks)))

  feed-stuck :
      (chunk line rest : List ℕ) (p : SseStreamParser)
      → OneLine line
      → line_step loads (trim_return line) p.fields ≡ none
      → p.buffer ≡ line ++ (10 ∷ rest)
      → feed loads chunk p
        ≡ ([], record { buffer = trim_return line ++ (10 ∷ (rest ++ chunk)); fields = p.fields })
  unfolding feed
  feed-stuck chunk line rest p h stuck e =
      ap (λ b. scan loads p.fields [] (b ++ chunk)) e
      ∙ ap (λ zs. scan loads p.fields [] zs) (append_assoc line (10 ∷ rest) chunk)
      ∙ scan-line p.fields line [] (10 ∷ (rest ++ chunk)) h
      ∙ scan-stuck p.fields 10 line (rest ++ chunk) refl stuck

  -- A complete line that is no UTF-8 is never skipped: once it stands at the front of the buffer, no
  -- chunks that arrive, whatever they hold, yield an event any more.
  pub feed_all-stuck :
      (chunks : List (List ℕ)) (line rest : List ℕ) (p : SseStreamParser)
      → OneLine line
      → line_step loads (trim_return line) p.fields ≡ none
      → p.buffer ≡ line ++ (10 ∷ rest)
      → feed_all chunks p ≡ []
  feed_all-stuck [] line rest p h stuck e = refl
  feed_all-stuck (chunk ∷ chunks) line rest p h stuck e =
      ap (λ (r : Events). r.0 ++ feed_all chunks r.1) (feed-stuck chunk line rest p h stuck e)
      ∙ feed_all-stuck chunks (trim_return line) (rest ++ chunk)
          (record { buffer = trim_return line ++ (10 ∷ (rest ++ chunk)); fields = p.fields })
          (OneLine-trim line h) (stuck-trim (trim_return line) p.fields stuck) refl
