-- ===== src/Uploads/Pages.antt =====
-- The text of a PDF that backend/app/uploads.py extracts is within its bounds.
use the_vc_brain.Prelude.{ℕ, List, [], ◌∷◌, ◌++◌}
use the_vc_brain.Uploads.{PdfPage}

abbrev pub concat : List (List ℕ) → List ℕ
concat [] = []
concat (text ∷ texts) = text ++ concat texts

abbrev pub texts_of : List PdfPage → List ℕ
texts_of [] = []
texts_of (p ∷ pages) = p.text ++ texts_of pages
