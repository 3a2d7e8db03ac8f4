-- ===== src/Http/Fields/Laws.antt =====
-- Pieces of a header, and the header.
use hpserver.Prelude.{
  ◌≡◌, ◌∙◌, ap, ◌⊎◌, inl, inr, refl, Bool, true, false, List, [], ◌∷◌, ◌++◌, map, Bytes,
}
use hpserver.Http.Request.{Headers}
use hpserver.Http.Fields.{
  Pending, cleared, finish_pending_header, on_header_field, Field, Piece, on_piece, on_pieces,
  pieces_of, all_pieces, join, name_of, value_of, assemble, HaveNames,
}

on_pieces-append :
    (xs ys : List Piece) (p : Pending) → on_pieces (xs ++ ys) p ≡ on_pieces ys (on_pieces xs p)
on_pieces-append [] ys p = refl
on_pieces-append (x ∷ xs) ys p = on_pieces-append xs ys (on_piece x p)

abbrev filled : Headers → Bytes → Bytes → Bool → Pending
filled h n v last = record {
  headers = h;
  current_header_field = n;
  current_header_value = v;
  parsing_last_was_value = last;
}

-- Between two headers: nothing is pending, or the last one is, with its value.
abbrev Ready : Pending → Type 0
Ready p = (p ≡ cleared p.headers) ⊎ (p.parsing_last_was_value ≡ true)

on_names :
    (h : Headers) (n : Bytes) (ns : List Bytes)
    → on_pieces (map Piece.name ns) (filled h n [] false) ≡ filled h (join n ns) [] false
on_names h n [] = refl
on_names h n (c ∷ cs) = on_names h (n ++ c) cs

on_values :
    (h : Headers) (n v : Bytes) (vs : List Bytes)
    → on_pieces (map Piece.value vs) (filled h n v true) ≡ filled h n (join v vs) true
on_values h n v [] = refl
on_values h n v (c ∷ cs) = on_values h n (v ++ c) cs

on_header_field_lem :
    (b : Bytes) (p : Pending)
    → Ready p
    → on_header_field b p ≡ filled (finish_pending_header p).headers b [] false
on_header_field_lem b p (inl e) = rw e refl
on_header_field_lem b p (inr e) = rw e refl

on_pieces_of :
    (f : Field) (p : Pending)
    → Ready p
    → on_pieces (pieces_of f) p
      ≡ filled (finish_pending_header p).headers (name_of f) (value_of f) true
on_pieces_of f p r =
    let h = (finish_pending_header p).headers in
    on_pieces-append (map Piece.name f.name_pieces) _ (on_header_field f.name_piece p)
    ∙ rw (on_header_field_lem f.name_piece p r, on_names h f.name_piece f.name_pieces)
        (on_values h (name_of f) f.value_piece f.value_pieces)

on_all_pieces :
    (fs : List Field) (p : Pending)
    → Ready p
    → HaveNames fs
    → (finish_pending_header (on_pieces (all_pieces fs) p)).headers
      ≡ assemble fs (finish_pending_header p).headers
on_all_pieces [] p r n = refl
on_all_pieces (f ∷ fs) p r n =
    let q = filled (finish_pending_header p).headers (name_of f) (value_of f) true in
    ap (λ q. (finish_pending_header q).headers) (on_pieces-append (pieces_of f) (all_pieces fs) p)
    ∙ rw (on_pieces_of f p r) (on_all_pieces fs q (inr refl) n.1 ∙ rw n.0 refl)

-- However a message's headers are cut into pieces, the finished map holds the whole values under
-- the lower-case names.
pub on_pieces-assemble :
    (fs : List Field) (h : Headers)
    → HaveNames fs
    → (finish_pending_header (on_pieces (all_pieces fs) (cleared h))).headers ≡ assemble fs h
on_pieces-assemble fs h n = on_all_pieces fs (cleared h) (inl refl) n
