-- ===== src/Content/References.antt =====
-- The checks that a new revision's relations and media pass: `lockRelationModels`,
-- `ensureRelationModelsLocked` and `precheckMedia` of internal/content/service.go, and
-- `ValidateAvailable` of internal/asset/references.go.
use golang_cms.Prelude.{
  ℕ, ◌+◌, String, Bool, true, false, not, ◌&&◌, ◌||◌, Option, none, some, List, [], ◌∷◌, map, ◌=s=◌,
  leb, is_empty_text, if◌then◌else◌, all, contains, sort_strings,
}
use golang_cms.AppError.{conflicting, Result, ok, err, ◌>>=◌, ◌>>◌, guard, resource_not_found}
use golang_cms.Schema.{ResourceStatus, ContentModel, ContentFields}
use golang_cms.Content.Types.{AssetStatus, Db, MediaReference, Relation}
use golang_cms.Content.Env.{Env, Rules, RevisionKey}

abbrev pub is_active : ResourceStatus → Bool
is_active ResourceStatus.active = true
is_active ResourceStatus.archived = false

-- `models[id].Status == schema.StatusActive`
abbrev pub is_active_model : Option ContentModel → Bool
is_active_model none = false
is_active_model (some model) = is_active model.status

abbrev pub is_model : Option ContentModel → Bool
is_model none = false
is_model (some model) = true

-- `lockRelationModels`: the locked models' ids.
unfoldable pub lock_relation_models : Db → String → List Relation → Result (List String)
lock_relation_models db model_id relations =
    let ids = model_id ∷ map (λ (r : Relation). r.target_model_id) relations in
    do
      guard (all (λ id. is_model (db.models id)) ids) resource_not_found
      guard (all (λ (r : Relation). is_active_model (db.models r.target_model_id)) relations)
          (conflicting "target_model_invalid")
      ok ids

-- The loop of `ensureRelationModelsLocked`.
unfoldable pub check_locked : Db → List String → List Relation → Result (Unit {0})
check_locked db locked [] = ok tt
check_locked db locked (r ∷ rs) =
    let rest = check_locked db locked rs in
    if not (contains r.target_model_id locked)
    then err (conflicting "model_schema_conflict")
    else if is_active_model (db.models r.target_model_id)
    then rest
    else err (conflicting "target_model_invalid")

unfoldable pub ensure_relation_models_locked :
    Rules → Db → String → RevisionKey → ContentFields → List String → Result (Unit {0})
ensure_relation_models_locked rules db content key fields locked = do
  (_, relations) ← rules.derivatives content key fields
  check_locked db locked relations

-- `PreviewKindFor` of internal/asset/service.go, where it is audio or video.
abbrev pub is_audio : String → Bool
is_audio mime =
    contains mime ("audio/mpeg" ∷ "audio/mp4" ∷ "audio/ogg" ∷ "audio/wav" ∷ "audio/webm" ∷ [])

abbrev pub is_video : String → Bool
is_video mime = contains mime ("video/mp4" ∷ "video/webm" ∷ [])

-- `validRichTextMedia`
unfoldable pub valid_rich_text_media : String → String → Bool
valid_rich_text_media kind mime =
    if kind =s= "image"
    then contains mime ("image/jpeg" ∷ "image/png" ∷ "image/gif" ∷ "image/webp" ∷ "image/avif" ∷ [])
    else if kind =s= "audio"
    then is_audio mime
    else if kind =s= "video"
    then is_video mime
    else false

abbrev pub add_once : String → List String → List String
add_once id ids = if id =s= "" || contains id ids then ids else id ∷ ids

-- `uniqueSorted` on the assets of the references.
unfoldable pub distinct_assets : List MediaReference → List String
distinct_assets [] = []
distinct_assets (r ∷ rs) = add_once r.asset_id (distinct_assets rs)

-- The number of references that pass a test: `counts[id]`, and a `COUNT(*)`.
unfoldable pub count_references : (MediaReference → Bool) → List MediaReference → ℕ
count_references p [] = 0
count_references p (r ∷ rs) = let rest = count_references p rs in if p r then rest + 1 else rest

-- `canInheritArchivedReferences`, and the status tests around it: an archived asset can be referenced
-- as often as the base revision references it.
unfoldable pub is_referable : Db → List MediaReference → String → String → AssetStatus → Bool
is_referable db references base id AssetStatus.archived =
    not (is_empty_text base)
    && leb (count_references (λ r. r.asset_id =s= id) references)
        (count_references (λ r. r.revision_id =s= base && r.asset_id =s= id) db.asset_references)
is_referable db references base id AssetStatus.available = true
is_referable db references base id AssetStatus.quarantined = false

-- `kinds[id]`: each kind that the references of the asset name fits its type.
unfoldable pub kinds_fit : List MediaReference → String → String → Bool
kinds_fit references id mime =
    all
      (λ (r : MediaReference).
        not (r.asset_id =s= id) || (is_empty_text r.kind || valid_rich_text_media r.kind mime))
      references

unfoldable pub check_asset : Db → List MediaReference → String → String → Result (Unit {0})
check_asset db references base id = elim (db.assets id) [
  | none ↦ err (conflicting "asset_not_available")
  | some a ↦
      if not (is_referable db references base id a.status)
      then err (conflicting "asset_not_available")
      else if kinds_fit references id a.mime_type
      then ok tt
      else err (conflicting "asset_media_type_invalid")
]

unfoldable pub check_assets : Db → List MediaReference → String → List String → Result (Unit {0})
check_assets db references base [] = ok tt
check_assets db references base (id ∷ ids) =
    let rest = check_assets db references base ids in check_asset db references base id >> rest

-- `ValidateAvailable`
unfoldable pub validate_available : Db → List MediaReference → String → Result (Unit {0})
validate_available db references base =
    check_assets db references base (sort_strings (distinct_assets references))

abbrev is_nil {ℓ} : {A : Type ℓ} → List A → Bool
is_nil [] = true
is_nil (x ∷ xs) = false

-- `precheckMedia`
unfoldable pub precheck_media : Env → Db → List MediaReference → String → Result (Unit {0})
precheck_media env db references base =
    if is_nil references
    then ok tt
    else if env.media_enabled
    then validate_available db references base
    else err (conflicting "assets_disabled")
