-- ===== src/Telemetry/RoundTrip.antt =====
-- What `SubmitMatchAggregates` appends to the sink and what `LoadMatchRequestsJSONL` reads back.
use mathlib.Core.List.{append_assoc}
use baseline_integrity.Base.{
  ap, sym, ℕ, ◌<◌, ◌≡◌, refl, ◌∙◌, Bool, true, false, not, Option, some, List, [], ◌∷◌, ◌++◌,
  length, is_nil, all, last_or, last_or-append, Text, trim_space, ◌==◌, arith, inl, inr, Bool-cases,
}
use baseline_integrity.Base.Result.{ok, Result-cases}
use baseline_integrity.Crypto.{Codec}
use baseline_integrity.Telemetry.{SubmitMatchAggregatesRequest}
use baseline_integrity.Telemetry.Lines.{
  drop_cr, raw_lines, scan, MatchRequestLine, parse_line, parse_lines, parse_file,
}
use baseline_integrity.Telemetry.Scanning.{
  IsComplete, cut-append, drop_cr-end, is_not_feed, is_solid, raw_lines-append, raw_lines-line,
  scan-append, trim_space-ends,
}

module _ {F : Type 0} (json : Codec (SubmitMatchAggregatesRequest F))
    (parse_time : Text → Option ℕ) where
  pub parse_lines-append :
      (xs : List Text) (l : Text) (r : MatchRequestLine F) (ls : List (MatchRequestLine F))
      → parse_lines json parse_time xs false ≡ ok ls
      → is_nil l ≡ false
      → trim_space l ≡ l
      → parse_line json parse_time l ≡ ok r
      → parse_lines json parse_time (xs ++ l ∷ []) false ≡ ok (ls ++ r ∷ [])
  unfolding parse_lines
  parse_lines-append [] l r ls e full trimmed parsed = ground (arith, trimmed, parsed)
  parse_lines-append (x ∷ xs) l r ls e full trimmed parsed =
      elim (Bool-cases (is_nil (trim_space x))) [
        | inl blank ↦ ground (arith, blank, parse_lines-append xs l r ls)
        | inr some_text ↦ elim (Result-cases (parse_line json parse_time (trim_space x))) [
          | inl (line, good) ↦ elim (Result-cases (parse_lines json parse_time xs false)) [
            | inl (rest, fine) ↦ ground (arith, parse_lines-append xs l r rest)
            | inr (bad, fails) ↦ ground arith
          ]
          | inr (bad, fails) ↦ ground arith
        ]
      ]

-- What `time.Format` gives: something without white space.
abbrev pub IsStamp : Text → Type 0
IsStamp t = (is_nil t ≡ false) × (all is_solid t ≡ true)

-- What `protojson` gives of a message: an object on one line.
abbrev pub IsObjectText : Text → Type 0
IsObjectText t = (body : Text) × (t ≡ body ++ 125 ∷ []) × (all is_not_feed t ≡ true)

-- One line of the sink without its line feed.
abbrev pub sink_line : Text → Text → Text
sink_line stamp body = stamp ++ 32 ∷ body

all-append : (p : ℕ → Bool) (s t : Text) → all p s ≡ true → all p t ≡ true → all p (s ++ t) ≡ true
unfolding all
all-append p [] t h k = k
all-append p (c ∷ s) t h k = ground (arith, all-append p s t)

solid-ne-feed : (s : Text) → all is_solid s ≡ true → all is_not_feed s ≡ true
unfolding all
solid-ne-feed [] h = refl
solid-ne-feed (c ∷ s) h = ground (arith, solid-ne-feed s)

pub solid-ne-blank : (s : Text) → all is_solid s ≡ true → all (λ d. not (d == 32)) s ≡ true
unfolding all
solid-ne-blank [] h = refl
solid-ne-blank (c ∷ s) h = ground (arith, solid-ne-blank s)

pub is_nil-append : (s t : Text) (c : ℕ) → is_nil (s ++ c ∷ t) ≡ false
is_nil-append [] t c = refl
is_nil-append (d ∷ s) t c = refl

pub sink_line-ends : (s body : Text) → sink_line s (body ++ 125 ∷ []) ≡ (s ++ 32 ∷ body) ++ 125 ∷ []
sink_line-ends s body = sym (append_assoc s (32 ∷ body) (125 ∷ []))

pub sink_line-trim :
    (stamp body : Text)
    → IsStamp stamp
    → IsObjectText body
    → trim_space (sink_line stamp body) ≡ sink_line stamp body
unfolding all
sink_line-trim [] body (h, k) o = cc
sink_line-trim (c ∷ s) body (h, k) (inside, e, one) =
    rw (e, sink_line-ends s inside) (trim_space-ends c 125 (s ++ 32 ∷ inside) (ground arith) refl)

pub sink_line-drop_cr :
    (stamp body : Text) → IsObjectText body → drop_cr (sink_line stamp body) ≡ sink_line stamp body
sink_line-drop_cr stamp body (inside, e, one) =
    rw (e, sink_line-ends stamp inside) (drop_cr-end (stamp ++ 32 ∷ inside) 125 refl)

pub sink_line-one_line :
    (stamp body : Text)
    → IsStamp stamp
    → IsObjectText body
    → all is_not_feed (sink_line stamp body) ≡ true
unfolding all
sink_line-one_line stamp body st ob =
    all-append is_not_feed stamp (32 ∷ body) (solid-ne-feed stamp st.1) ob.2

-- The lines of a sink that ends at a line feed and reads back as these requests.
module _ {F : Type 0} (json : Codec (SubmitMatchAggregatesRequest F))
    (parse_time : Text → Option ℕ) where
  pub record IsSink (size : ℕ) (b : Text) (ls : List (MatchRequestLine F)) : Type 0 where
    pub complete : IsComplete b
    pub reads_back : parse_file json parse_time size b ≡ ok ls

  pub empty-IsSink : (size : ℕ) → IsSink size [] []
  unfolding parse_file parse_lines raw_lines scan
  empty-IsSink size = record { complete = refl; reads_back = refl }

  sink_line-parse :
      (stamp body : Text) (now : ℕ) (req : SubmitMatchAggregatesRequest F)
      → IsStamp stamp
      → IsObjectText body
      → parse_time stamp ≡ some now
      → json.decode body ≡ some req
      → parse_line json parse_time (sink_line stamp body) ≡ ok (record { at = now; req = req })
  unfolding parse_line
  sink_line-parse stamp body now req (h, k) (inside, e, one) timed decoded =
      let some_body : is_nil body ≡ false = rw e (is_nil-append inside [] 125) in
      rw (cut-append 32 stamp body (solid-ne-blank stamp k), h, some_body, timed, decoded)

  pub parse_lines-long :
      (xs : List Text) (ls : List (MatchRequestLine F))
      → parse_lines json parse_time xs true ≡ ok ls
      → ⊥
  unfolding parse_lines
  parse_lines-long [] ls e = cc
  parse_lines-long (x ∷ xs) ls e = elim (Result-cases (parse_lines json parse_time xs true)) [
    | inl (rest, fine) ↦ parse_lines-long xs rest fine
    | inr (bad, fails) ↦ elim (Bool-cases (is_nil (trim_space x))) [
      | inl blank ↦ ground arith
      | inr some_text ↦ elim (Result-cases (parse_line json parse_time (trim_space x))) [
        | inl (line, good) ↦ ground arith
        | inr (worse, unread) ↦ ground arith
      ]
    ]
  ]

  parse_file-append :
      (size : ℕ) (b line : Text) (r : MatchRequestLine F) (ls : List (MatchRequestLine F))
      → IsSink size b ls
      → is_nil line ≡ false
      → trim_space line ≡ line
      → drop_cr line ≡ line
      → all is_not_feed line ≡ true
      → length line < size
      → parse_line json parse_time line ≡ ok r
      → parse_file json parse_time size (b ++ (line ++ 10 ∷ [])) ≡ ok (ls ++ r ∷ [])
  unfolding parse_file
  parse_file-append size b line r ls h full trimmed bare one fits parsed =
      elim (Bool-cases (scan size (raw_lines b)).1) [
        | inl long ↦
            absurd (parse_lines-long (scan size (raw_lines b)).0 ls (rw long at h.reads_back))
        | inr short ↦ rw (
          raw_lines-append b (line ++ 10 ∷ []) h.complete,
          raw_lines-line line one,
          scan-append size (raw_lines b) line short fits,
          bare,
          parse_lines-append json parse_time (scan size (raw_lines b)).0 line r ls
              (rw short at h.reads_back) full trimmed parsed,
        )
      ]

  -- One more line.
  pub sink_line-IsSink :
      (size : ℕ) (b stamp body : Text) (now : ℕ) (req : SubmitMatchAggregatesRequest F)
      (ls : List (MatchRequestLine F))
      → IsStamp stamp
      → IsObjectText body
      → parse_time stamp ≡ some now
      → json.decode body ≡ some req
      → length (sink_line stamp body) < size
      → IsSink size b ls
      → IsSink size
          (b ++ (sink_line stamp body ++ 10 ∷ []))
          (ls ++ record { at = now; req = req } ∷ [])
  unfolding all
  sink_line-IsSink size b stamp body now req ls st ob timed decoded fits h =
      let line = sink_line stamp body in
      record {
        complete =
            ap (last_or 10) (sym (append_assoc b line (10 ∷ [])))
            ∙ last_or-append 10 10 (b ++ line) [];
        reads_back =
            parse_file-append size b line (record { at = now; req = req }) ls h
              (is_nil-append stamp body 32) (sink_line-trim stamp body st ob)
              (sink_line-drop_cr stamp body ob) (sink_line-one_line stamp body st ob) fits
              (sink_line-parse stamp body now req st ob timed decoded);
      }
