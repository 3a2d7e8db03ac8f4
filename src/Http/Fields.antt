-- ===== src/Http/Fields.antt =====
-- How both parsers of src/net/http put a header together from the pieces that llhttp hands over
-- (`on_header_field_cb`, `on_header_value_cb`, `finish_pending_header`, the same code in
-- http_request_parser.cpp and http_response_parser.cpp).
pub mod Laws
use hpserver.Prelude.{
  ◌≡◌, ◌⊎◌, inl, inr, refl, Bool, true, false, List, [], ◌∷◌, ◌++◌, map, if◌then◌else◌, Bytes,
}
use hpserver.Text.{to_lower_ascii}
use hpserver.Http.Request.{Headers, set_header}
use hpserver.Http.Builder.{is_empty}
use mathlib.Core.List.{append_assoc}

pub record Pending : Type 0 where
  pub headers : Headers
  pub current_header_field : Bytes
  pub current_header_value : Bytes
  pub parsing_last_was_value : Bool

abbrev pub cleared : Headers → Pending
cleared headers = record {
  headers = headers;
  current_header_field = [];
  current_header_value = [];
  parsing_last_was_value = false;
}

abbrev pub finish_pending_header : Pending → Pending
finish_pending_header p = if is_empty p.current_header_field then p else record p {
  headers = set_header (to_lower_ascii p.current_header_field) p.current_header_value p.headers;
}

abbrev pub on_header_field : Bytes → Pending → Pending
on_header_field piece p =
    let p' : Pending =
      if p.parsing_last_was_value then cleared (finish_pending_header p).headers else p in
    record p' { current_header_field = p'.current_header_field ++ piece }

abbrev pub on_header_value : Bytes → Pending → Pending
on_header_value piece p = record p {
  current_header_value = p.current_header_value ++ piece;
  parsing_last_was_value = true;
}

-- One header as it may arrive: its name in one piece or more, then its value in one piece or more.
pub record Field : Type 0 where
  pub name_piece : Bytes
  pub name_pieces : List Bytes
  pub value_piece : Bytes
  pub value_pieces : List Bytes

pub data Piece : Type 0 where
  name : Bytes → Piece
  value : Bytes → Piece

abbrev pub on_piece : Piece → Pending → Pending
on_piece (name b) = on_header_field b
on_piece (value b) = on_header_value b

abbrev pub on_pieces : List Piece → Pending → Pending
on_pieces [] p = p
on_pieces (e ∷ es) p = on_pieces es (on_piece e p)

abbrev pub pieces_of : Field → List Piece
pieces_of f =
    name f.name_piece ∷ (map name f.name_pieces ++ (value f.value_piece ∷ map value f.value_pieces))

abbrev pub all_pieces : List Field → List Piece
all_pieces [] = []
all_pieces (f ∷ fs) = pieces_of f ++ all_pieces fs

abbrev pub join : Bytes → List Bytes → Bytes
join b [] = b
join b (c ∷ cs) = join (b ++ c) cs

abbrev pub name_of : Field → Bytes
name_of f = join f.name_piece f.name_pieces

abbrev pub value_of : Field → Bytes
value_of f = join f.value_piece f.value_pieces

-- The headers that a message has: a later one takes the place of an earlier one with the same name.
abbrev pub assemble : List Field → Headers → Headers
assemble [] h = h
assemble (f ∷ fs) h = assemble fs (set_header (to_lower_ascii (name_of f)) (value_of f) h)

abbrev pub HaveNames : List Field → Type 0
HaveNames [] = Unit
HaveNames (f ∷ fs) = (is_empty (name_of f) ≡ false) × HaveNames fs
