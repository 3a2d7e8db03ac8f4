-- ===== src/Http/HttpConn.antt =====
-- src/net/http/http_conn.{h,cpp}: a connection with its parser. What http_conn.cpp passes on to
-- the connection's buffers unchanged stands in ConnectionIo.
pub mod Once
use hpserver.Prelude.{
  ℕ, Bool, true, false, not, ◌||◌, ltb, leb, Option, none, some, List, if◌then◌else◌, Bytes, length,
  drop,
}
use hpserver.Http.Llhttp.{Llhttp}
use hpserver.Http.RequestParser.{Event, HttpRequestParser, blank_parser, has_parse_error}
use hpserver.Http.RequestParser as Parser
use hpserver.Http.ConnectionIo.{HttpConnectionIo, http_connection_io, consume_read_bytes}

module _ (lib : Llhttp Event) where
  pub record HttpConn : Type 0 where
    pub io : HttpConnectionIo
    pub parser : HttpRequestParser
    pub llhttp : lib.Parser
    pub parse_offset : ℕ

  abbrev pub http_conn : Option ℕ → HttpConn
  http_conn fd = record {
    io = http_connection_io fd;
    parser = blank_parser;
    llhttp = lib.init;
    parse_offset = 0;
  }

  abbrev pub after_parse : HttpConn → Bool × (HttpRequestParser × lib.Parser) → HttpConn × Bool
  after_parse c (ok, (p, parser)) = (
    record c {
      parser = p;
      llhttp = parser;
      parse_offset = if ok then length c.io.read_buffer else c.parse_offset;
    },
    ok,
  )

  unfoldable pub parse_available_data : HttpConn → HttpConn × Bool
  parse_available_data c =
      if has_parse_error c.parser || leb (length c.io.read_buffer) c.parse_offset
      then (c, not (has_parse_error c.parser))
      else after_parse c (Parser.parse lib (drop c.parse_offset c.io.read_buffer) c.parser c.llhttp)

  unfoldable pub reset_for_next_message : HttpConn → HttpConn
  unfolding consume_read_bytes
  reset_for_next_message c =
      let (p, parser) = Parser.reset_for_next_message lib c.parser c.llhttp in
      record c {
        io = if ltb 0 c.parse_offset then consume_read_bytes c.parse_offset c.io else c.io;
        parser = p;
        llhttp = parser;
        parse_offset = 0;
      }
