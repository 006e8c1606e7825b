-- ===== src/Server/Pipelining.antt =====
-- What becomes of input that follows a line in one read: Session::Read in app/src/server/session.cpp, one
-- read after the other on one connection.
use network_broker.Prelude.{
  ℕ, suc, ◌≡◌, refl, ap, sym, ◌∙◌, Text, List, [], ◌∷◌, ◌++◌, Option, none, some, true, false, inl,
  inr, if◌then◌else◌, nat_beq, Bool-cases, Option-cases, append_assoc, append-nil, arith,
}
use network_broker.Prelude.Streams.{newline, getline, has_newline}
use network_broker.Prelude.Cut.{cut, full_lines, last_part, cut_unfinished}
use network_broker.Repository.{ClientRepository, TopicRepository}
use network_broker.Server.{Server, handle_line, received}

-- A segment up to its first newline, with it.
unfoldable pub first_line : Text → Text
first_line [] = []
first_line (c ∷ s) = let rest = first_line s in if nat_beq c newline then c ∷ [] else c ∷ rest

-- What is left of a connection's input where every segment ends at its first newline.
unfoldable pub first_lines : List Text → Text
first_lines [] = []
first_lines (bytes ∷ segments) = first_line bytes ++ first_lines segments

module _ {ClientDb TopicDb : Type 0} (client_repo : ClientRepository ClientDb)
    (topic_repo : TopicRepository TopicDb) (draws : ℕ → List ℕ) (p : ℕ) where
  -- The reads of a session. A segment is what the socket gives to one of the reads that async_read_until
  -- makes of it. A read of the session has a streambuf of its own, here `buffer`, to which async_read_until
  -- adds segments until it holds a newline; the handler then takes one line, and the next read starts
  -- with an empty streambuf. `draws n` are the numbers that the handler of the n-th line may draw.
  unfoldable pub read_segments :
      Text → List Text → ℕ → Server ClientDb TopicDb → Option (Server ClientDb TopicDb)
  read_segments buffer [] n s = some s
  read_segments buffer (bytes ∷ segments) n s = elim (has_newline (buffer ++ bytes)) [
    | true ↦ elim (received client_repo topic_repo p (buffer ++ bytes) (draws n) s) [
      | none ↦ none
      | some s' ↦ read_segments [] segments (suc n) s'
    ]
    | false ↦ read_segments (buffer ++ bytes) segments n s
  ]

  -- A server that handles lines one by one, with nothing else said of where they come from.
  unfoldable pub handle_lines :
      List Text → ℕ → Server ClientDb TopicDb → Option (Server ClientDb TopicDb)
  handle_lines [] n s = some s
  handle_lines (line ∷ lines) n s = elim (handle_line client_repo topic_repo p line (draws n) s) [
    | none ↦ none
    | some s' ↦ handle_lines lines (suc n) s'
  ]

first_line-finished :
    (bytes rest : Text)
    → has_newline bytes ≡ true
    → cut (first_line bytes ++ rest) ≡ (getline bytes ∷ full_lines rest, last_part rest)
unfolding cut first_line has_newline getline
first_line-finished [] rest h = absurd (ground (arith, h))
first_line-finished (c ∷ bytes) rest h = ground (arith, first_line-finished bytes rest)

-- A line that a segment completes.
cut_completed :
    (buffer bytes rest : Text)
    → has_newline buffer ≡ false
    → has_newline (buffer ++ bytes) ≡ true
    → cut (buffer ++ (first_line bytes ++ rest))
      ≡ (getline (buffer ++ bytes) ∷ full_lines rest, last_part rest)
unfolding cut has_newline getline
cut_completed [] bytes rest started complete = first_line-finished bytes rest complete
cut_completed (c ∷ buffer) bytes rest started complete =
    ground (arith, cut_completed buffer bytes rest)

first_line-unfinished :
    (buffer bytes : Text) → has_newline (buffer ++ bytes) ≡ false → first_line bytes ≡ bytes
unfolding first_line has_newline
first_line-unfinished [] [] h = refl
first_line-unfinished [] (c ∷ bytes) h = ground (arith, first_line-unfinished [] bytes)
first_line-unfinished (c ∷ buffer) bytes h = first_line-unfinished buffer bytes (ground (arith, h))

module _ {ClientDb TopicDb : Type 0} (client_repo : ClientRepository ClientDb)
    (topic_repo : TopicRepository TopicDb) (draws : ℕ → List ℕ) (p : ℕ) where
  read_completed :
      (buffer bytes : Text) (segments lines : List Text) (n : ℕ) (s : Server ClientDb TopicDb)
      → has_newline (buffer ++ bytes) ≡ true
      → ((s' : Server ClientDb TopicDb)
          → read_segments client_repo topic_repo draws p [] segments (suc n) s'
            ≡ handle_lines client_repo topic_repo draws p lines (suc n) s')
      → read_segments client_repo topic_repo draws p buffer (bytes ∷ segments) n s
        ≡ handle_lines client_repo topic_repo draws p (getline (buffer ++ bytes) ∷ lines) n s
  unfolding read_segments handle_lines received
  read_completed buffer bytes segments lines n s complete follow =
      rw (complete, read_segments)
        (elim (Option-cases
          (handle_line client_repo topic_repo p (getline (buffer ++ bytes)) (draws n) s)) [
            | inl failed ↦ rw (failed, handle_lines) refl
            | inr (s', handled) ↦ rw (handled, handle_lines) (follow s')
          ])

  read_segments-handle_lines :
      (segments : List Text) (buffer : Text) (n : ℕ) (s : Server ClientDb TopicDb)
      → has_newline buffer ≡ false
      → read_segments client_repo topic_repo draws p buffer segments n s
        ≡ handle_lines client_repo topic_repo draws p
            (full_lines (buffer ++ first_lines segments))
            n
            s
  unfolding read_segments handle_lines first_lines has_newline
  read_segments-handle_lines [] buffer n s started =
      let none_full : full_lines (buffer ++ []) ≡ [] =
        ap full_lines (append-nil buffer) ∙ ap (λ x. x.0) (cut_unfinished buffer started) in
      ap (λ lines. handle_lines client_repo topic_repo draws p lines n s) (sym none_full)
  read_segments-handle_lines (bytes ∷ segments) buffer n s started =
      let rest = first_lines segments in
      elim (Bool-cases (has_newline (buffer ++ bytes))) [
        | inl complete ↦
            read_completed buffer bytes segments (full_lines rest) n s complete
              (λ s'. read_segments-handle_lines segments [] (suc n) s' refl)
            ∙ ap (λ x. handle_lines client_repo topic_repo draws p x.0 n s)
                (sym (cut_completed buffer bytes rest started complete))
        | inr more ↦
            let same : (buffer ++ bytes) ++ rest ≡ buffer ++ (first_line bytes ++ rest) =
              rw (first_line-unfinished buffer bytes more) (append_assoc buffer bytes rest) in
            rw (more, read_segments)
              (read_segments-handle_lines segments (buffer ++ bytes) n s more
                ∙ ap (λ x. handle_lines client_repo topic_repo draws p (full_lines x) n s) same)
      ]

  -- Give a server the input of one connection in segments, the handler of each line coming before the
  -- next segment and nothing in between. It handles the lines of the input in which every segment is cut
  -- after its first newline, in order, each once, and no others: what follows the first newline of a
  -- segment is lost, whatever it is, and the end of a line whose start is lost so is handled as a line of
  -- its own.
  pub read_segments_loses :
      (segments : List Text) (s : Server ClientDb TopicDb)
      → read_segments client_repo topic_repo draws p [] segments 0 s
        ≡ handle_lines client_repo topic_repo draws p (full_lines (first_lines segments)) 0 s
  unfolding has_newline
  read_segments_loses segments s = read_segments-handle_lines segments [] 0 s refl
