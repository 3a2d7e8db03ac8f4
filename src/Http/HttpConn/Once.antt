-- ===== src/Http/HttpConn/Once.antt =====
-- Every byte that is received is parsed once, in its order.
use hpserver.Prelude.{
  ◌≡◌, ◌∙◌, ◌<◌, refl, ap, arith, Bool, true, false, leb, List, [], ◌∷◌, ◌++◌, if◌then◌else◌, Bytes,
  length, length-append, drop, drop-length_append, Bool-cases, inl, inr,
}
use hpserver.Http.Llhttp.{Llhttp, Errno}
use hpserver.Http.Builder.{is_empty}
use hpserver.Http.RequestParser.{
  Event, HttpRequestParser, has_parse_error, on_event, on_events, after_execute,
}
use hpserver.Http.RequestParser as Parser
use hpserver.Http.HttpConn.{HttpConn, after_parse, parse_available_data}

is_empty-length : (bytes : Bytes) → is_empty bytes ≡ false → 0 < length bytes
is_empty-length [] h = absurd (ground arith)
is_empty-length (c ∷ cs) h = omega arith

on_events-keeps :
    (es : List Event) (p : HttpRequestParser)
    → has_parse_error p ≡ false
    → has_parse_error (on_events es p) ≡ false
on_events-keeps [] p h = h
on_events-keeps (Event.message_begin ∷ es) p h =
    on_events-keeps es (on_event Event.message_begin p) refl
on_events-keeps (Event.message_end ∷ es) p h =
    on_events-keeps es (on_event Event.message_end p) refl
on_events-keeps (Event.url b ∷ es) p h = on_events-keeps es (on_event (Event.url b) p) h
on_events-keeps (Event.version b ∷ es) p h = on_events-keeps es (on_event (Event.version b) p) h
on_events-keeps (Event.header_field b ∷ es) p h =
    on_events-keeps es (on_event (Event.header_field b) p) h
on_events-keeps (Event.header_value b ∷ es) p h =
    on_events-keeps es (on_event (Event.header_value b) p) h
on_events-keeps (Event.headers_complete n k s c ∷ es) p h =
    on_events-keeps es (on_event (Event.headers_complete n k s c) p) h
on_events-keeps (Event.body b ∷ es) p h = on_events-keeps es (on_event (Event.body b) p) h

after_execute-keeps :
    (lib : Llhttp Event) (err : Errno) (p : HttpRequestParser) (parser : lib.Parser)
    → has_parse_error p ≡ false
    → (after_execute lib err p parser).0 ≡ true
    → has_parse_error (after_execute lib err p parser).1.0 ≡ false
after_execute-keeps lib err p parser h e = ground (arith)

-- A parse that succeeds leaves no error.
parse-keeps :
    (lib : Llhttp Event) (bytes : Bytes) (p : HttpRequestParser) (parser : lib.Parser)
    → has_parse_error p ≡ false
    → (Parser.parse lib bytes p parser).0 ≡ true
    → has_parse_error (Parser.parse lib bytes p parser).1.0 ≡ false
unfolding Parser.parse
parse-keeps lib bytes p parser h e = elim (Bool-cases (is_empty bytes)) [
  | inl i ↦ rw (i, h, Parser.parse) h
  | inr i ↦
      let run = lib.execute bytes parser in
      let q : Parser.parse lib bytes p parser
          ≡ after_execute lib run.1.0 (on_events run.0 p) run.1.1 =
        rw (i, h, Parser.parse) refl in
      rw q (
        after_execute-keeps lib run.1.0 (on_events run.0 p) run.1.1 (on_events-keeps run.0 p h)
          (rw q at e))
]

module _ (lib : Llhttp Event) where
  -- Every byte of the read buffer has been parsed.
  abbrev pub IsParsed : HttpConn lib → Type 0
  IsParsed c = c.parse_offset ≡ length c.io.read_buffer

  abbrev pub received : Bytes → HttpConn lib → HttpConn lib
  received bytes c = record c { io = record c.io { read_buffer = c.io.read_buffer ++ bytes } }

  parse_available_data-received :
      (c : HttpConn lib) (bytes : Bytes)
      → IsParsed c
      → has_parse_error c.parser ≡ false
      → is_empty bytes ≡ false
      → parse_available_data lib (received bytes c)
        ≡ after_parse lib (received bytes c) (Parser.parse lib bytes c.parser c.llhttp)
  unfolding parse_available_data
  parse_available_data-received c bytes d ok full =
      let more : leb (length (c.io.read_buffer ++ bytes)) c.parse_offset ≡ false =
        ground (arith, length-append c.io.read_buffer bytes, d, is_empty-length bytes full) in
      let chunk : drop c.parse_offset (c.io.read_buffer ++ bytes) ≡ bytes =
        ap (λ n. drop n (c.io.read_buffer ++ bytes)) d
        ∙ drop-length_append c.io.read_buffer bytes in
      rw (ok, more, chunk) refl

  -- Received chunk by chunk, each parsed at once, up to a failure.
  abbrev pub rounds : List Bytes → HttpConn lib → HttpConn lib × Bool
  rounds [] c = (c, true)
  rounds (bytes ∷ chunks) c =
      let (c', ok) = parse_available_data lib (received bytes c) in
      if ok then rounds chunks c' else (c', false)

  -- The parser alone, on the same chunks.
  abbrev pub parse_chunks :
      List Bytes → HttpRequestParser → lib.Parser → (HttpRequestParser × lib.Parser) × Bool
  parse_chunks [] p parser = ((p, parser), true)
  parse_chunks (bytes ∷ chunks) p parser =
      let (ok, q) = Parser.parse lib bytes p parser in
      if ok then parse_chunks chunks q.0 q.1 else (q, false)

  -- The same outcome and the same state of the parser and of llhttp.
  abbrev pub Agree : HttpConn lib × Bool → (HttpRequestParser × lib.Parser) × Bool → Type 0
  Agree (c, ok) ((p, parser), ok') = (ok ≡ ok') × (c.parser ≡ p) × (c.llhttp ≡ parser)

  abbrev pub AreFull : List Bytes → Type 0
  AreFull [] = Unit
  AreFull (bytes ∷ chunks) = (is_empty bytes ≡ false) × AreFull chunks

  -- On a connection without a parse error whose bytes have all been parsed, receiving chunks that
  -- are not empty and parsing after each gives the parser every chunk once, in their order: the
  -- outcome and the parser are those of the parser run on the chunks alone.
  pub rounds-parse_chunks :
      (chunks : List Bytes) (c : HttpConn lib)
      → IsParsed c
      → has_parse_error c.parser ≡ false
      → AreFull chunks
      → Agree (rounds chunks c) (parse_chunks chunks c.parser c.llhttp)
  rounds-parse_chunks [] c d ok full = (refl, refl, refl)
  rounds-parse_chunks (bytes ∷ chunks) c d ok full =
      let parsed = Parser.parse lib bytes c.parser c.llhttp in
      let c' : HttpConn lib = record (received bytes c) {
        parser = parsed.1.0;
        llhttp = parsed.1.1;
        parse_offset = length (c.io.read_buffer ++ bytes);
      } in
      elim (Bool-cases parsed.0) [
        | inl e ↦
            let next =
              rounds-parse_chunks chunks c' refl (parse-keeps lib bytes c.parser c.llhttp ok e)
                full.1 in
            rw (parse_available_data-received c bytes d ok full.0, e) next
        | inr e ↦ rw (parse_available_data-received c bytes d ok full.0, e) (refl, refl, refl)
      ]
