-- ===== src/Origin/Workers/Tests.antt =====
-- The workers of a site of two images, the second one first, and the theorem of their order at them.
use Prim.Native.String.{String}
use mathlib.Core.List.{Permᴰ}
use text.Mathlib.TextEquality.{eq_iff}
use ncdn.Base.{◌≡◌, refl, some, List, [], ◌∷◌}
use ncdn.Base.Int.{pos}
use ncdn.Base.Maps.{put}
use ncdn.Origin.Site.{Variant, ImageInfo}
use ncdn.Origin.Assets.{Tools, Built, load_image, load_images, nothing_built, build_assets}
use ncdn.Origin.Workers.{Job, jobs_of, work_all, before_work}
use ncdn.Origin.Workers.Order.{AllDiffer}
use ncdn.Origin.Workers.Loop.{Agrees, build_assets-Agrees}

abbrev tools : Tools
tools = record { read_image = λ file. some file; resize = λ b w. some "small"; decimal = λ n. "1" }

abbrev thumb : Variant
thumb = record { name = "thumb"; width = pos 160; label = "S" }

abbrev variants : List Variant
variants = record { name = "full"; width = pos 0; label = "L" } ∷ thumb ∷ []

abbrev image : String → ImageInfo
image file = record {
  id = "1";
  title = "";
  file = file;
  bytes = 7;
  category = "";
  category_slug = "";
}

abbrev images : List ImageInfo
images = image "cat.png" ∷ image "sea.png" ∷ []

-- What the originals leave: a file is its name, of seven bytes.
abbrev start : Built
start = record {
  images = images;
  originals = ("cat.png", "cat.png") ∷ ("sea.png", "sea.png") ∷ [];
  assets = ("full/cat.png", "cat.png") ∷ ("full/sea.png", "sea.png") ∷ [];
  total_bytes = 14;
}

loaded : load_images tools (nothing_built tools) images ≡ some start
unfolding load_images load_image put
loaded = refl

abbrev job : String → Job
job file = record { variant = thumb; info = image file }

differ : AllDiffer (jobs_of variants images)
unfolding jobs_of
differ = (((λ e. cc ((eq_iff "thumb/cat.png" "thumb/sea.png").1 e)), tt), (tt, tt))

-- The worker of the second image takes the lock first.
second_first : Permᴰ (jobs_of variants images) (job "sea.png" ∷ job "cat.png" ∷ [])
unfolding jobs_of
second_first = Permᴰ.swap refl refl

build_assets-Agrees_example :
    Agrees start
      (build_assets tools variants images)
      (work_all tools start.originals (before_work start) (job "sea.png" ∷ job "cat.png" ∷ []))
build_assets-Agrees_example =
    build_assets-Agrees tools variants images start (job "sea.png" ∷ job "cat.png" ∷ []) loaded
      differ second_first
