-- ===== src/Origin/Workers/Loop.antt =====
-- The loops of `buildAssets` with the workers one after another, and the workers in any order.
use Prim.Native.String.{String, len}
use mathlib.Core.List.{Permᴰ}
use ncdn.Base.{
  ◌+◌, true, false, ◌≡◌, refl, sym, ap, subst, ◌∙◌, Bool-cases, Option, none, some, Option-cases,
  List, [], ◌∷◌, ◌++◌, inl, inr,
}
use ncdn.Base.Int.{pos}
use ncdn.Base.Maps.{find_entry, find_entry-put}
use ncdn.Origin.Site.{Variant, ImageInfo, eq_ℤ}
use ncdn.Origin.Assets.{
  Tools, Built, asset_key, resize_image, resize_images, add_variants, load_images, nothing_built,
  build_assets, bytes_of,
}
use ncdn.Origin.Workers.{Job, Worked, jobs_for, jobs_of, keep, resized_of, work_all, before_work}
use ncdn.Origin.Workers.Order.{AllDiffer, fails, fails-note, LooksAlike, work_all-Permᴰ}

-- `buildAssets` returns an error exactly when a worker has failed, and has built what they have.
abbrev pub Agrees : Built → Option Built → Worked → Type 0
Agrees start none w = fails w.first_error ≡ true
Agrees start (some b) w =
    (b.images ≡ start.images)
    × (b.originals ≡ start.originals)
    × (fails w.first_error ≡ false)
    × (b.total_bytes ≡ w.total_bytes)
    × ((k : String) → find_entry k b.assets ≡ find_entry k w.assets)

Agrees-LooksAlike :
    (start : Built) (o : Option Built) (w w' : Worked)
    → LooksAlike w w'
    → Agrees start o w
    → Agrees start o w'
Agrees-LooksAlike start none w w' a h = sym a.same_failure ∙ h
Agrees-LooksAlike start (some b) w w' a (images, originals, fine, total, same) = (
  images,
  originals,
  sym a.same_failure ∙ fine,
  total ∙ a.same_total,
  (λ k. same k ∙ a.same_assets k),
)

module _ (t : Tools) (originals : List (String × String)) where
  work_all-append :
      (is js : List Job) (w : Worked)
      → work_all t originals w (is ++ js) ≡ work_all t originals (work_all t originals w is) js
  unfolding work_all
  work_all-append [] js w = refl
  work_all-append (i ∷ is) js w = work_all-append is js _

  -- A failure stays.
  work_all-fails :
      (js : List Job) (w : Worked)
      → fails w.first_error ≡ true
      → fails (work_all t originals w js).first_error ≡ true
  unfolding work_all keep
  work_all-fails [] w h = h
  work_all-fails (j ∷ js) w h = elim (Option-cases (resized_of t originals j)) [
    | inl bad ↦ rw (bad, work_all, keep) (work_all-fails js _ (fails-note w.first_error _))
    | inr (b, made) ↦ rw (made, work_all, keep) (work_all-fails js _ h)
  ]

module _ (t : Tools) (start : Built) where
  resize_images-Agrees :
      (v : Variant) (infos : List ImageInfo) (b : Built) (w : Worked)
      → Agrees start (some b) w
      → Agrees start (resize_images t v b infos) (work_all t start.originals w (jobs_for v infos))
  unfolding resize_images resize_image work_all jobs_for keep
  resize_images-Agrees v [] b w h = h
  resize_images-Agrees v (info ∷ infos) b w (images, same, fine, total, lookups) =
      elim (Option-cases (t.resize (bytes_of (find_entry info.file b.originals)) v.width)) [
        | inl bad ↦
            let bad' = rw same at bad in
            rw (bad, bad', resize_images, resize_image, work_all, jobs_for, keep)
              (work_all-fails t start.originals (jobs_for v infos) _ (fails-note w.first_error _))
        | inr (resized, made) ↦
            let made' = rw same at made in
            rw (made, made', resize_images, resize_image, work_all, jobs_for, keep)
              (resize_images-Agrees v infos _ _ (
                images,
                same,
                fine,
                ap (λ n. n + len resized) total,
                (λ k.
                    rw
                      (
                        find_entry-put k (asset_key v.name info.file) resized b.assets,
                        find_entry-put k (asset_key v.name info.file) resized w.assets,
                        lookups k,
                      )
                      refl),
              ))
      ]

  add_variants-Agrees :
      (vs : List Variant) (b : Built) (w : Worked)
      → Agrees start (some b) w
      → Agrees start (add_variants t b vs) (work_all t start.originals w (jobs_of vs start.images))
  unfolding add_variants jobs_of work_all
  add_variants-Agrees [] b w h = h
  add_variants-Agrees (v ∷ vs) b w h = elim (Bool-cases (eq_ℤ v.width (pos 0))) [
    | inl original ↦ rw (original, add_variants, jobs_of) (add_variants-Agrees vs b w h)
    | inr smaller ↦
        let images : resize_images t v b start.images ≡ resize_images t v b b.images =
          ap (λ i. resize_images t v b i) (sym h.0) in
        let next = work_all t start.originals w (jobs_for v start.images) in
        let done : Agrees start (resize_images t v b b.images) next =
          subst (λ o. Agrees start o next) images (resize_images-Agrees v start.images b w h) in
        let step =
          work_all-append t start.originals (jobs_for v start.images) (jobs_of vs start.images) w in
        elim (Option-cases (resize_images t v b b.images)) [
          | inl bad ↦
              rw (smaller, bad, add_variants, jobs_of, step)
                (work_all-fails t start.originals (jobs_of vs start.images) _
                  (subst (λ o. Agrees start o next) bad done))
          | inr (b1, made) ↦
              rw (smaller, made, add_variants, jobs_of, step)
                (add_variants-Agrees vs b1 _ (subst (λ o. Agrees start o next) made done))
        ]
  ]

-- When the originals can be read, and no two workers store under the same name, the workers of
-- `buildAssets`, in every order in which they take the lock, leave what the loops leave that run them
-- one after another: an error exactly if these end in one, and otherwise the same bytes under every
-- name, and the same total.
pub build_assets-Agrees :
    (t : Tools) (vs : List Variant) (images : List ImageInfo) (start : Built) (order : List Job)
    → load_images t (nothing_built t) images ≡ some start
    → AllDiffer (jobs_of vs start.images)
    → Permᴰ (jobs_of vs start.images) order
    → Agrees start (build_assets t vs images) (work_all t start.originals (before_work start) order)
unfolding build_assets
build_assets-Agrees t vs images start order loaded differ p =
    rw (loaded, build_assets)
      (Agrees-LooksAlike start (add_variants t start vs) _ _
        (work_all-Permᴰ t start.originals (before_work start) p differ)
        (add_variants-Agrees t start vs start (before_work start)
          (refl, refl, refl, refl, (λ k. refl))))
