-- ===== src/Worker/Transfer/Uploads.antt =====
-- What a successful upload of the outputs has done, and what it returns.
use yirang_taskforge.Prelude.{
  ◌≡◌, refl, sym, ap, subst, ◌∙◌, ◌++◌, append_assoc, append-nil, map, Bool-cases, inl, inr, Option,
  none, some, List, [], ◌∷◌, Text, bytes, All, Expected, ok, unexpected, if◌then◌else◌,
}
use yirang_taskforge.Json.{Json}
use yirang_taskforge.Paths.{◌/p◌}
use yirang_taskforge.World.{
  World, Services, Event, OutputEntry, s3_upload, s3_presign, record_event, Act, pure, call, ◌>>=◌,
}
use yirang_taskforge.Configurations.{Configurations}
use yirang_taskforge.Worker.Transfer.{
  on_ok, iterated, done_with, with_context, result_entry, upload_file, upload_entries,
  upload_outputs,
}

-- The names of the regular files among the entries.
abbrev pub file_names : List OutputEntry → List Text
file_names [] = []
file_names (entry ∷ rest) =
    let names = file_names rest in if entry.is_regular_file then entry.name ∷ names else names

-- The second world's trace goes on from the first's.
abbrev pub Extends : World → World → Type 0
Extends first last = (new : List Event) × (last.trace ≡ new ++ first.trace)

pub Extends-trans : (u v w : World) → Extends u v → Extends v w → Extends u w
Extends-trans u v w (a, e) (b, f) =
    (b ++ a, f ∙ ap (λ t. b ++ t) e ∙ sym (append_assoc b a u.trace))

-- A value comes from a first part that succeeds.
pub on_ok-eq-ok :
    {A B : Type 0} (r : Expected A) (f : A → Act (Expected B)) (w : World) (b : B)
    → (on_ok r f w).0 ≡ ok b
    → (a : A) × (r ≡ ok a) × ((f a w).0 ≡ ok b) × (on_ok r f w ≡ f a w)
unfolding pure
on_ok-eq-ok (ok a) f w b h = (a, refl, h, refl)
on_ok-eq-ok (unexpected e) f w b h = absurd (cc)

module _ (json : Json) (services : Services) (config : Configurations) (prefix dir : Text) where
  open json use {Value}

  abbrev pub entry_of : Text × Text → Value
  entry_of (filename, url) = result_entry json filename url

  abbrev up : Text → Event
  up filename = s3_upload config.s3_bucket (prefix ++ filename) (◌/p◌ dir filename)

  abbrev presigned : Text → Event
  presigned filename = s3_presign config.s3_bucket (prefix ++ filename) config.presign_ttl_sec

  -- At a moment between the two worlds, the upload of the file succeeded, and the presigning of its
  -- key right after that gave the link.
  pub record IsServed (first last : World) (file : Text × Text) : Type 0 where
    pub moment : World
    pub since : Extends first moment
    pub uploaded :
        services.upload_file moment config.s3_bucket (prefix ++ file.0) (◌/p◌ dir file.0) ≡ ok tt
    pub linked :
        services.generate_presigned_url
          (record_event (up file.0) moment)
          config.s3_bucket
          (prefix ++ file.0)
          config.presign_ttl_sec
        ≡ ok file.1
    pub until : Extends (record_event (presigned file.0) (record_event (up file.0) moment)) last

  IsServed-earlier :
      (u v w : World) (files : List (Text × Text))
      → Extends u v
      → All (IsServed v w) files
      → All (IsServed u w) files
  IsServed-earlier u v w [] e h = tt
  IsServed-earlier u v w (file ∷ files) e h = (
    record {
      moment = h.0.moment;
      since = Extends-trans u v h.0.moment e h.0.since;
      uploaded = h.0.uploaded;
      linked = h.0.linked;
      until = h.0.until;
    },
    IsServed-earlier u v w files e h.1,
  )

  with_context-eq-ok :
      (what filename : Text) (r : Expected Text) (a : Text)
      → with_context json what filename r ≡ ok a
      → r ≡ ok a
  with_context-eq-ok what filename (ok b) a h = h
  with_context-eq-ok what filename (unexpected e) a h = absurd (cc)

  done_with-eq-ok : (r : Expected (Unit {0})) (a : Text) → done_with json r ≡ ok a → r ≡ ok tt
  done_with-eq-ok (ok _) a h = refl
  done_with-eq-ok (unexpected e) a h = absurd (cc)

  upload_file-eq-ok :
      (w : World) (filename url : Text)
      → (upload_file json services config prefix dir filename w).0 ≡ ok url
      → (services.upload_file w config.s3_bucket (prefix ++ filename) (◌/p◌ dir filename) ≡ ok tt)
        × (services.generate_presigned_url
              (record_event (up filename) w)
              config.s3_bucket
              (prefix ++ filename)
              config.presign_ttl_sec
            ≡ ok url)
        × ((upload_file json services config prefix dir filename w).1
            ≡ record_event (presigned filename) (record_event (up filename) w))
  unfolding upload_file call ◌>>=◌
  upload_file-eq-ok w filename url h =
      let (a, first, second, same) = on_ok-eq-ok _ _ (record_event (up filename) w) url h in
      let done = with_context-eq-ok (bytes "upload") filename _ a first in
      (
        done_with-eq-ok _ a done,
        with_context-eq-ok (bytes "presign") filename _ url second,
        ap (λ p. p.1) same,
      )

  -- What the uploads of the entries give, and the run that they make.
  abbrev Served : World → World → List OutputEntry → List Value → List Value → Type 0
  Served first last entries results out =
      (links : List (Text × Text)) × (out ≡ results ++ map entry_of links)
      × (map (λ l. l.0) links ≡ file_names entries)
      × All (IsServed first last) links
      × Extends first last

  upload_entries-eq-ok :
      (entries : List OutputEntry) (results out : List Value) (w : World)
      → (upload_entries json services config prefix dir entries results w).0 ≡ ok out
      → Served w
          (upload_entries json services config prefix dir entries results w).1
          entries
          results
          out
  unfolding upload_entries ◌>>=◌ pure
  upload_entries-eq-ok [] results out w h =
      ([], (let same : out ≡ results = cc in same ∙ sym (append-nil results)), refl, tt, ([], refl))
  upload_entries-eq-ok (entry ∷ rest) results out w h = elim (Bool-cases entry.is_regular_file) [
    | inr other ↦ rw other (upload_entries-eq-ok rest results out w (rw other at h))
    | inl regular ↦
        let uploading = upload_file json services config prefix dir entry.name w in
        let (url, good, after, same) =
          on_ok-eq-ok uploading.0 _ uploading.1 out (rw regular at h) in
        let (uploaded, linked, moved) = upload_file-eq-ok w entry.name url good in
        let served =
          upload_entries-eq-ok rest (results ++ entry_of (entry.name, url) ∷ []) out uploading.1
            after in
        let (links, all, names, each, extends) = served in
        let last =
          (upload_entries json services config prefix dir rest
            (results ++ entry_of (entry.name, url) ∷ []) uploading.1).1 in
        let begun : Extends w uploading.1 =
          (presigned entry.name ∷ up entry.name ∷ [], ap (λ v. v.trace) moved) in
        rw (regular, same)
          (
            (entry.name, url) ∷ links,
            all ∙ append_assoc results (entry_of (entry.name, url) ∷ []) (map entry_of links),
            ap (λ t. entry.name ∷ t) names,
            (
              record {
                moment = w;
                since = ([], refl);
                uploaded = uploaded;
                linked = linked;
                until = subst (λ v. Extends v last) moved extends;
              },
              IsServed-earlier w uploading.1 last links begun each,
            ),
            Extends-trans w uploading.1 last begun extends,
          )
  ]

  iterated-eq-ok :
      (r : Expected (List Value)) (error : Option Text) (v : World) (out : List Value)
      → (on_ok r (λ results. pure (iterated json error results)) v).0 ≡ ok out
      → (r ≡ ok out)
        × (error ≡ none)
        × ((on_ok r (λ results. pure (iterated json error results)) v).1 ≡ v)
  unfolding pure
  iterated-eq-ok (ok results) none v out h = (h, refl, refl)
  iterated-eq-ok (ok results) (some message) v out h = absurd (cc)
  iterated-eq-ok (unexpected e) error v out h = absurd (cc)

  -- If `upload_outputs` returns links, the iteration ended without an error, and the links are an
  -- entry for each regular file of the directory, in the directory's order, and no other. Each of
  -- these files was uploaded with success within the call, under the prefix, and its link is what
  -- presigning its key gave right after that.
  pub upload_outputs-eq-ok :
      (w : World) (out : List Value)
      → (upload_outputs json services config prefix dir w).0 ≡ ok out
      → (services.directory_error w dir ≡ none)
        × ((links : List (Text × Text)) × (out ≡ map entry_of links)
            × (map (λ l. l.0) links ≡ file_names (services.directory_entries w dir))
            × All (IsServed w (upload_outputs json services config prefix dir w).1) links)
  unfolding upload_outputs ◌>>=◌
  upload_outputs-eq-ok w out h =
      let entries = services.directory_entries w dir in
      let uploading = upload_entries json services config prefix dir entries [] w in
      let (good, fine, same) =
        iterated-eq-ok uploading.0 (services.directory_error w dir) uploading.1 out h in
      let (links, all, names, each, extends) = upload_entries-eq-ok entries [] out w good in
      (fine, (links, all, names, rw same each))
