-- ===== src/Uploads.antt =====
-- backend/app/uploads.py: an upload that is streamed to a file of at most a number of bytes, the
-- checks on the bytes of a PDF, and its text. The package pypdf is an argument. Not modelled: the
-- check of the file's name, the malware scanner and the temporary directory.
pub mod Pages
pub mod Stream
use the_vc_brain.Prelude.{
  ℕ, zero, ◌+◌, ◌-◌, Bool, true, false, Option, none, some, List, [], ◌∷◌, ◌++◌, ltb, leb, ◌==◌,
  ◌&&◌, ◌||◌, not, if◌then◌else◌, length, take, drop, all,
}

-- The messages of the error of the same name; a limit is named in its message.
pub data UploadRejected : Type 0 where
  too_large : ℕ → UploadRejected
  not_a_pdf : UploadRejected
  trailing_content : UploadRejected
  encrypted : UploadRejected
  not_parsed : UploadRejected
  no_page : UploadRejected
  too_many_pages : ℕ → UploadRejected

pub data Checked (A : Type 0) : Type 0 where
  accepted : A → Checked A
  rejected : UploadRejected → Checked A

-- What pypdf makes of some bytes. `pages` has the text of each page, and is `none` where counting
-- the pages raises.
pub record PdfReader : Type 0 where
  pub is_encrypted : Bool
  pub pages : Option (List (List ℕ))

-- b"%PDF-" and b"%%EOF"
abbrev pub pdf_marker : List ℕ
pdf_marker = 37 ∷ 80 ∷ 68 ∷ 70 ∷ 45 ∷ []

abbrev pub eof_marker : List ℕ
eof_marker = 37 ∷ 37 ∷ 69 ∷ 79 ∷ 70 ∷ []

abbrev pub starts_with : List ℕ → List ℕ → Bool
starts_with [] bytes = true
starts_with (m ∷ marker) [] = false
starts_with (m ∷ marker) (b ∷ bytes) = m == b && starts_with marker bytes

-- what follows the last occurrence of a marker that is not empty
abbrev pub after_last : List ℕ → List ℕ → Option (List ℕ)
after_last marker [] = none
after_last marker (b ∷ bytes) = elim (after_last marker bytes) [
  | some rest ↦ some rest
  | none ↦ if starts_with marker (b ∷ bytes) then some (drop (length marker) (b ∷ bytes)) else none
]

-- the bytes that `bytes.strip` removes
abbrev pub is_space : ℕ → Bool
is_space b = b == 32 || (leb 9 b && leb b 13)

abbrev pub ends_well : List ℕ → Bool
ends_well content = elim (after_last eof_marker content) [
  | none ↦ false
  | some rest ↦ all is_space rest
]

abbrev pub count_checked : ℕ → ℕ → Checked ℕ
count_checked max_pages page_count =
    if ltb page_count 1
    then rejected no_page
    else if ltb max_pages page_count
    then rejected (too_many_pages max_pages)
    else accepted page_count

abbrev pub pages_checked : ℕ → Option (List (List ℕ)) → Checked ℕ
pages_checked max_pages none = rejected not_parsed
pages_checked max_pages (some pages) = count_checked max_pages (length pages)

-- The reader is `none` where its construction raises.
abbrev pub reader_checked : ℕ → Option PdfReader → Checked ℕ
reader_checked max_pages none = rejected not_parsed
reader_checked max_pages (some reader) =
    if reader.is_encrypted then rejected encrypted else pages_checked max_pages reader.pages

-- the text of a page and its locator, whose kind is always "pdf" and whose start is always 0
pub record PdfPage : Type 0 where
  pub text : List ℕ
  pub page : ℕ
  pub char_end : ℕ

abbrev pub bounded_pages : ℕ → ℕ → List (List ℕ) → List PdfPage
bounded_pages zero page_number texts = []
bounded_pages remaining page_number [] = []
bounded_pages remaining page_number (text ∷ texts) =
    let bounded_text = take remaining text in
    record { text = bounded_text; page = page_number; char_end = length bounded_text }
    ∷ bounded_pages (remaining - length bounded_text) (page_number + 1) texts

-- the pages of a reader whose pages were counted
abbrev pub pages_of : Option PdfReader → List (List ℕ)
pages_of none = []
pages_of (some reader) = elim reader.pages [ none ↦ [] | some pages ↦ pages ]

-- `total` and `written` are the state of the loop, which a chunk without bytes ends.
abbrev pub stream_chunks : ℕ → ℕ → List ℕ → List (List ℕ) → Checked (List ℕ)
stream_chunks max_bytes total written [] = accepted written
stream_chunks max_bytes total written ([] ∷ chunks) = accepted written
stream_chunks max_bytes total written ((b ∷ bytes) ∷ chunks) =
    let chunk = b ∷ bytes in
    let rest = stream_chunks max_bytes (total + length chunk) (written ++ chunk) chunks in
    if ltb max_bytes (total + length chunk) then rejected (too_large max_bytes) else rest

-- The bytes in the file; the total that the code returns is their count.
unfoldable pub stream_to_quarantine : ℕ → List (List ℕ) → Checked (List ℕ)
stream_to_quarantine max_bytes chunks = stream_chunks max_bytes 0 [] chunks

module _ (pdf_reader : List ℕ → Option PdfReader) where
  unfoldable pub validate_pdf_bytes : List ℕ → ℕ → Checked ℕ
  validate_pdf_bytes content max_pages =
      if not (starts_with pdf_marker content)
      then rejected not_a_pdf
      else if not (ends_well content)
      then rejected trailing_content
      else reader_checked max_pages (pdf_reader content)

  unfoldable pub extract_pdf_pages : List ℕ → ℕ → ℕ → Checked (List PdfPage)
  extract_pdf_pages content max_pages max_text_chars = elim (validate_pdf_bytes content max_pages) [
    | rejected e ↦ rejected e
    | accepted _ ↦ accepted (bounded_pages max_text_chars 1 (pages_of (pdf_reader content)))
  ]
