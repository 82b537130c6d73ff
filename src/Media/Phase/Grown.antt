-- ===== src/Media/Phase/Grown.antt =====
-- What more files and objects leave true of custody.
use paperboy.Base.{
  ℕ, ◌≡◌, refl, Option, none, some, List, [], ◌∷◌, ◌++◌, arith, All-map_at, All-append,
}
use paperboy.Base.Text.{Text, text_eq_refl}
use paperboy.Base.Assoc.{All-set}
use paperboy.Media.Content.{ContentKey, content_key_eq, FileRow, Sighting, Index, path_of}
use paperboy.Media.Store.{Objects}
use paperboy.Media.Phase.State.{Work, Run, record_custody, remember}
use paperboy.Media.Phase.Kept.{Keeps}
use paperboy.Media.Phase.Backed.{Holds, IsBacked, IsSound, Sound}

-- Files are only added.
abbrev pub FilesGrow : List FileRow → List FileRow → Type 0
FilesGrow fs gs = (sha path : Text) → path_of sha fs ≡ some path → path_of sha gs ≡ some path

pub FilesGrow-append : (fs gs : List FileRow) → FilesGrow fs (fs ++ gs)
unfolding path_of
FilesGrow-append [] gs sha path h = cc
FilesGrow-append (f ∷ fs) gs sha path h = ground (arith, FilesGrow-append fs gs sha path)

pub path_of-new :
    (fs : List FileRow) (f : FileRow)
    → path_of f.sha256 fs ≡ none
    → path_of f.sha256 (fs ++ f ∷ []) ≡ some f.path
unfolding path_of
path_of-new [] f h = rw (text_eq_refl f.sha256) refl
path_of-new (g ∷ fs) f h = ground (arith, path_of-new fs f)

pub Holds-grow :
    (r : Run) (o p : Objects)
    → Keeps o p
    → (path sha : Text) → Holds r o path sha
    → Holds r p path sha
Holds-grow r o p k path sha (bytes, e, c) = (bytes, k path bytes e, c)

module _ (r : Run) where
  pub IsBacked-grow :
      (fs gs : List FileRow) (o p : Objects)
      → FilesGrow fs gs
      → Keeps o p
      → (c : Sighting) → IsBacked r fs o c
      → IsBacked r gs p c
  IsBacked-grow fs gs o p f k c h = record {
    located = f c.sha256 c.path h.located;
    stored = λ e. Holds-grow r o p k c.path c.sha256 (h.stored e);
  }

  pub Sound-grow :
      (fs gs : List FileRow) (cs : List Sighting) (o p : Objects) (i : Index)
      → FilesGrow fs gs
      → Keeps o p
      → IsSound r fs cs o i
      → IsSound r gs cs p i
  Sound-grow fs gs cs o p i f k h = record {
    sightings = All-map_at cs h.sightings (IsBacked-grow fs gs o p f k);
    known = All-map_at i h.known (λ e at_key. f (e.1.0) (e.1.1) at_key);
  }

  pub Sound-objects :
      (w : Work) (o : Objects) → Keeps w.objects o → Sound r w → Sound r (record w { objects = o })
  Sound-objects w o k h = Sound-grow w.files w.files w.custody w.objects o w.index (λ s p e. e) k h

  pub Sound-record_custody :
      (path sha uri : Text) (at : ℕ) (key : Option ContentKey) (w : Work)
      → path_of sha w.files ≡ some path
      → Holds r w.objects path sha
      → Sound r w
      → Sound r (record_custody r path sha uri at key w)
  Sound-record_custody path sha uri at key w e b h = record {
    sightings =
        All-append (IsBacked r w.files w.objects) w.custody _ h.sightings
          (record { located = e; stored = λ s. b }, tt);
    known = h.known;
  }

  pub Sound-remember :
      (key : Option ContentKey) (sha path : Text) (w : Work)
      → path_of sha w.files ≡ some path
      → Sound r w
      → Sound r (remember key (sha, path) w)
  Sound-remember none sha path w e h = h
  Sound-remember (some k) sha path w e h = record {
    sightings = h.sightings;
    known =
        All-set content_key_eq (λ v. path_of (v.0) w.files ≡ some (v.1)) k (sha, path) w.index
          h.known e;
  }
