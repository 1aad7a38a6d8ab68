-- ===== src/Origin/Workers.antt =====
-- The workers of `buildAssets` of origin/site.go as they run at the same time: each resizes an image, and
-- stores it or notes its error under the lock. The order in which they take the lock is arbitrary.
pub mod Order
pub mod Loop
mod Tests
use Prim.Native.String.{String, len}
use ncdn.Base.{ℕ, ◌+◌, Option, none, some, List, [], ◌∷◌, ◌++◌, if◌then◌else◌}
use ncdn.Base.Int.{pos}
use ncdn.Base.Maps.{put, find_entry}
use ncdn.Origin.Site.{Variant, ImageInfo, eq_ℤ}
use ncdn.Origin.Assets.{Tools, Built, asset_key, bytes_of}

-- What a worker is started with.
pub record Job : Type 0 where
  pub variant : Variant
  pub info : ImageInfo

-- What the workers share: `s.assets`, `s.totalBytes`, and the file of `firstEr`.
pub record Worked : Type 0 where
  pub assets : List (String × String)
  pub total_bytes : ℕ
  pub first_error : Option String

-- The workers of a variant.
unfoldable pub jobs_for : Variant → List ImageInfo → List Job
jobs_for v [] = []
jobs_for v (info ∷ infos) = record { variant = v; info = info } ∷ jobs_for v infos

-- The workers that the two loops start.
unfoldable pub jobs_of : List Variant → List ImageInfo → List Job
unfolding jobs_for
jobs_of [] images = []
jobs_of (v ∷ vs) images =
    let rest = jobs_of vs images in if eq_ℤ v.width (pos 0) then rest else jobs_for v images ++ rest

-- `if firstEr == nil`
unfoldable pub note : Option String → String → Option String
note none file = some file
note (some e) file = some e

-- A worker under the lock, with what `resizePNG` has returned.
unfoldable pub keep : Worked → Job → Option String → Worked
unfolding note
keep w j none = record w { first_error = note w.first_error j.info.file }
keep w j (some resized) = record w {
  assets = put (asset_key j.variant.name j.info.file) resized w.assets;
  total_bytes = w.total_bytes + len resized;
}

module _ (t : Tools) (originals : List (String × String)) where
  -- The image of a worker.
  abbrev pub resized_of : Job → Option String
  resized_of j = t.resize (bytes_of (find_entry j.info.file originals)) j.variant.width

  -- The workers in the order in which they take the lock.
  unfoldable pub work_all : Worked → List Job → Worked
  work_all w [] = w
  work_all w (j ∷ js) = work_all (keep w j (resized_of j)) js

-- What the workers find when the originals are stored.
abbrev pub before_work : Built → Worked
before_work b = record { assets = b.assets; total_bytes = b.total_bytes; first_error = none }
