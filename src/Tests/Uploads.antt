-- ===== src/Tests/Uploads.antt =====
-- A PDF of two pages of which three characters are taken, and an upload in two chunks.
use the_vc_brain.Prelude.{ℕ, ◌≡◌, refl, false, some, Option, List, [], ◌∷◌, ◌++◌}
use the_vc_brain.Uploads.{
  rejected, too_large, PdfReader, pdf_marker, eof_marker, bounded_pages, stream_to_quarantine,
}
use the_vc_brain.Uploads.Pages.{texts_of}
use the_vc_brain.Uploads.Stream.{received, within, stream_to_quarantine_lem}

abbrev two_pages : List (List ℕ)
two_pages = (97 ∷ 98 ∷ []) ∷ (99 ∷ 100 ∷ []) ∷ []

abbrev two_page_reader : List ℕ → Option PdfReader
two_page_reader bytes = some (record { is_encrypted = false; pages = some two_pages })

abbrev deck : List ℕ
deck = pdf_marker ++ 49 ∷ 10 ∷ eof_marker ++ 10 ∷ []

three_characters : texts_of (bounded_pages 3 1 two_pages) ≡ (97 ∷ 98 ∷ 99 ∷ [])
three_characters = refl

refused_stream : stream_to_quarantine 2 ((1 ∷ 2 ∷ []) ∷ (3 ∷ []) ∷ []) ≡ rejected (too_large 2)
unfolding stream_to_quarantine
refused_stream = refl

stream_to_quarantine_lem_example :
    stream_to_quarantine 2 ((1 ∷ 2 ∷ []) ∷ [] ∷ []) ≡ within 2 (received ((1 ∷ 2 ∷ []) ∷ [] ∷ []))
stream_to_quarantine_lem_example = stream_to_quarantine_lem 2 ((1 ∷ 2 ∷ []) ∷ [] ∷ [])
