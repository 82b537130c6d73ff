-- ===== src/Media/Content/KeyText.antt =====
-- A content key is read back from its text.
use paperboy.Base.{◌≡◌, refl, Option, none, some}
use paperboy.Base.Decimal.{pos, int-decimal}
use paperboy.Media.Content.{
  Kind, photo, document, Media, ContentKey, kind_name, key_of, content_key, content_key_text,
  parse_content_key, downloadable_kind, photo_id, document_id,
}
use mathlib.Core.Path.{subst}
use paperboy.Base.Assoc.{some_injective}
use paperboy.Ids.Peer.{lower}
use paperboy.Base.{ℕ}

read_back :
    (kind : Kind) (n : ℕ)
    → parse_content_key (content_key_text (kind_name kind, pos n)) ≡ some (kind_name kind, pos n)
unfolding parse_content_key content_key_text
read_back photo n = rw (int-decimal n) refl
read_back document n = rw (int-decimal n) refl

key_of_text :
    (kind : Kind) (n : Option ℕ) (k : ContentKey)
    → key_of kind n ≡ some k
    → parse_content_key (content_key_text k) ≡ some k
key_of_text kind none k h = cc
key_of_text kind (some n) k h =
    subst (λ j. parse_content_key (content_key_text j) ≡ some j)
      (some_injective (kind_name kind, pos n) k h) (read_back kind n)

-- The text of a message's content key is read back as that key.
pub parse_content_key-content_key_text :
    (m : Media) (k : ContentKey)
    → content_key m ≡ some k
    → parse_content_key (content_key_text k) ≡ some k
unfolding content_key
parse_content_key-content_key_text m k h = by_kind (downloadable_kind (lower m.tag)) h
  where
    by_kind :
        (d : Option Kind)
        → (elim d [
          | none ↦ none
          | some photo ↦ key_of photo (photo_id m.photo)
          | some document ↦ key_of document (document_id m.document)
        ])
          ≡ some k
        → parse_content_key (content_key_text k) ≡ some k
    by_kind none g = cc
    by_kind (some photo) g = key_of_text photo (photo_id m.photo) k g
    by_kind (some document) g = key_of_text document (document_id m.document) k g
