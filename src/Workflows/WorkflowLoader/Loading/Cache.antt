-- ===== src/Workflows/WorkflowLoader/Loading/Cache.antt =====
-- `load_workflow` of libs/workflows/workflow_loader.py for a name, and its cache. What the files of
-- the base, the tenant and the environment parse to is a parameter.
use Prim.Native.String.{◌++◌}
use multi_ai_agent.Prelude.{
  ◌≡◌, ◌↔◌, refl, sym, ap, ◌∙◌, Option, none, some, List, [], String, Result, ok, err, inl, inr,
  Option-cases, Result-cases, str_eq, eq_refl, map, Bool-cases, ◌⊎◌,
}
use multi_ai_agent.Prelude.Dict.{Dict, get, put, get-put}
use multi_ai_agent.Workflows.WorkflowLoader.{WorkflowSpec, validate_spec}
use multi_ai_agent.Workflows.WorkflowLoader.Validation.{IsValid, validate_spec_correct}
use multi_ai_agent.Workflows.WorkflowLoader.Document.{
  LoadError, bind, specification, merge_override,
}
use multi_ai_agent.Workflows.WorkflowLoader.Loading.{checked}
use multi_ai_agent.Workflows.WorkflowLoader.Loading.Reading.{bind_ok}

-- the three kinds of files, by name; a tenant or an environment may have none
pub record Files : Type 0 where
  pub base : String → Result LoadError WorkflowSpec
  pub tenant : String → String → Result LoadError (Option WorkflowSpec)
  pub environment : String → String → Result LoadError (Option WorkflowSpec)

-- `_merge_specs(base_spec, spec)` where there is a `spec`
abbrev pub overlay : WorkflowSpec → Option WorkflowSpec → Result LoadError WorkflowSpec
overlay base none = ok base
overlay base (some spec) = merge_override base (specification spec)

abbrev pub tenant_name : Option String → String
tenant_name none = "None"
tenant_name (some id) = id

abbrev pub cache_key : String → Option String → String → String
cache_key name tenant environment = name ++ (":" ++ (tenant_name tenant ++ (":" ++ environment)))

abbrev pub tenant_layer :
    Files → String → Option String → WorkflowSpec → Result LoadError WorkflowSpec
tenant_layer files name none spec = ok spec
tenant_layer files name (some id) spec = bind (files.tenant id name) (overlay spec)

unfoldable pub build_workflow :
    Files → String → Option String → String → Result LoadError WorkflowSpec
build_workflow files name tenant environment = bind (files.base name) (λ base.
    bind (tenant_layer files name tenant base) (λ spec.
      bind (files.environment environment name)
        (λ layer. bind (overlay spec layer) (λ final. checked final (validate_spec final)))))

abbrev pub Cache : Type 0
Cache = Dict WorkflowSpec

abbrev pub remember :
    String → Cache → Result LoadError WorkflowSpec → Cache × Result LoadError WorkflowSpec
remember key cache (ok spec) = (put key spec cache, ok spec)
remember key cache (err e) = (cache, err e)

-- `tenant_id` is none or not empty
unfoldable pub load_workflow :
    Files → String → Option String → String → Cache → Cache × Result LoadError WorkflowSpec
load_workflow files name tenant environment cache =
    let key = cache_key name tenant environment in
    elim (get key cache) [
      | some spec ↦ (cache, ok spec)
      | none ↦ remember key cache (build_workflow files name tenant environment)
    ]

unfoldable pub clear_cache : Cache → Cache
clear_cache cache = []

unfoldable pub get_cached_workflows : Cache → List String
get_cached_workflows cache = map (λ (e : String × WorkflowSpec). e.0) cache

-- Every specification in the cache is valid.
abbrev pub HasValid : Cache → Type 0
HasValid cache = (key : String) (spec : WorkflowSpec) → get key cache ≡ some spec → IsValid spec

checked-IsValid :
    (final spec : WorkflowSpec) → checked final (validate_spec final) ≡ ok spec → IsValid spec
checked-IsValid final spec e = elim (Result-cases (validate_spec final)) [
  | inl (u, v) ↦
      (let same : final ≡ spec = cc (rw v at e) in rw (← same) ((validate_spec_correct final).0 v))
  | inr (x, v) ↦ cc (rw v at e)
]

build_workflow-IsValid :
    (files : Files) (name : String) (tenant : Option String) (environment : String)
    (spec : WorkflowSpec)
    → build_workflow files name tenant environment ≡ ok spec
    → IsValid spec
unfolding build_workflow
build_workflow-IsValid files name tenant environment spec e =
    let (base, _, e1) = bind_ok (files.base name) _ spec e in
    let (layered, _, e2) = bind_ok (tenant_layer files name tenant base) _ spec e1 in
    let (layer, _, e3) = bind_ok (files.environment environment name) _ spec e2 in
    let (final, _, e4) = bind_ok (overlay layered layer) _ spec e3 in checked-IsValid final spec e4

put-HasValid :
    (key : String) (spec : WorkflowSpec) (cache : Cache)
    → IsValid spec
    → HasValid cache
    → HasValid (put key spec cache)
put-HasValid key spec cache v h = λ k s e. elim (Bool-cases (str_eq key k)) [
  | inl p ↦ (let same : spec ≡ s = cc (rw (get-put, p) at e) in rw (← same) v)
  | inr p ↦ h k s (rw (get-put, p) at e)
]

-- What a call leaves: a valid specification, which the cache then holds, or an exception, which
-- leaves the cache as it was.
abbrev pub LoadOutcome : String → Cache → Cache × Result LoadError WorkflowSpec → Type 0
LoadOutcome key before (after, result) =
    ((spec : WorkflowSpec) × (result ≡ ok spec) × IsValid spec × (get key after ≡ some spec))
    ⊎ ((e : LoadError) × (result ≡ err e) × (after ≡ before))

-- With valid specifications in the cache, a loading by name returns a valid specification, which the
-- cache then holds, or it raises and leaves the cache as it was; every specification in the cache is
-- again valid.
pub load_workflow_outcome :
    (files : Files) (name : String) (tenant : Option String) (environment : String) (cache : Cache)
    → HasValid cache
    → HasValid (load_workflow files name tenant environment cache).0
      × LoadOutcome
          (cache_key name tenant environment)
          cache
          (load_workflow files name tenant environment cache)
unfolding load_workflow
load_workflow_outcome files name tenant environment cache h = elim (Option-cases (get key cache)) [
  | inr (spec, e) ↦ rw (load_workflow, e) (h, inl (spec, refl, h key spec e, e))
  | inl e ↦
      rw (load_workflow, e)
        (elim (Result-cases (build_workflow files name tenant environment)) [
          | inl (spec, b) ↦ rw b (
              let v = build_workflow-IsValid files name tenant environment spec b in
              (put-HasValid key spec cache v h, inl (spec, refl, v, simp (get-put, eq_refl))))
          | inr (x, b) ↦ rw b (h, inr (x, refl, refl))
        ])
]
  where
    key : String
    key = cache_key name tenant environment

abbrev NoTenantFile : Files → String → Option String → Type 0
NoTenantFile files name none = Unit
NoTenantFile files name (some id) = files.tenant id name ≡ ok none

-- The base is valid, and neither the tenant nor the environment has a file for the workflow.
pub record Bare (files : Files) (name : String) (tenant : Option String) (environment : String)
    (spec : WorkflowSpec) : Type 0 where
  pub base : files.base name ≡ ok spec
  pub no_tenant : NoTenantFile files name tenant
  pub no_environment : files.environment environment name ≡ ok none
  pub valid : IsValid spec

overlay_bare :
    (base spec : WorkflowSpec) (layer : Option WorkflowSpec)
    → overlay base layer ≡ ok spec
    → (layer ≡ none) × (base ≡ spec)
unfolding merge_override
overlay_bare base spec none e = (refl, cc)
overlay_bare base spec (some other) e = absurd cc

tenant_layer_bare :
    (files : Files) (name : String) (tenant : Option String) (base spec : WorkflowSpec)
    → tenant_layer files name tenant base ≡ ok spec
    → NoTenantFile files name tenant × (base ≡ spec)
tenant_layer_bare files name none base spec e = (tt, cc)
tenant_layer_bare files name (some id) base spec e =
    let (layer, t, o) = bind_ok (files.tenant id name) (overlay base) spec e in
    let (absent, same) = overlay_bare base spec layer o in (t ∙ ap ok absent, same)

checked_same :
    (final spec : WorkflowSpec) → checked final (validate_spec final) ≡ ok spec → final ≡ spec
checked_same final spec e = elim (Result-cases (validate_spec final)) [
  | inl (u, v) ↦ cc (rw v at e)
  | inr (x, v) ↦ cc (rw v at e)
]

build_workflow-Bare :
    (files : Files) (name : String) (tenant : Option String) (environment : String)
    (spec : WorkflowSpec)
    → build_workflow files name tenant environment ≡ ok spec
    → Bare files name tenant environment spec
unfolding build_workflow
build_workflow-Bare files name tenant environment spec e =
    let (base, b, e1) = bind_ok (files.base name) _ spec e in
    let (layered, t, e2) = bind_ok (tenant_layer files name tenant base) _ spec e1 in
    let (layer, v, e3) = bind_ok (files.environment environment name) _ spec e2 in
    let (final, o, e4) = bind_ok (overlay layered layer) _ spec e3 in
    let (no_tenant, same) = tenant_layer_bare files name tenant base layered t in
    let (absent, same') = overlay_bare layered final layer o in
    let all_same : base ≡ spec = same ∙ same' ∙ checked_same final spec e4 in
    record {
      base = b ∙ ap ok all_same;
      no_tenant = no_tenant;
      no_environment = v ∙ ap ok absent;
      valid = checked-IsValid final spec e4;
    }

no_tenant_layer :
    (files : Files) (name : String) (tenant : Option String) (base : WorkflowSpec)
    → NoTenantFile files name tenant
    → tenant_layer files name tenant base ≡ ok base
no_tenant_layer files name none base h = refl
no_tenant_layer files name (some id) base h = rw h refl

Bare-build_workflow :
    (files : Files) (name : String) (tenant : Option String) (environment : String)
    (spec : WorkflowSpec)
    → Bare files name tenant environment spec
    → build_workflow files name tenant environment ≡ ok spec
unfolding build_workflow
Bare-build_workflow files name tenant environment spec h =
    rw
      (
        build_workflow,
        h.base,
        no_tenant_layer files name tenant spec h.no_tenant,
        h.no_environment,
        (validate_spec_correct spec).1 h.valid,
      )
      refl

remember_result :
    (key : String) (cache : Cache) (r : Result LoadError WorkflowSpec)
    → (remember key cache r).1 ≡ r
remember_result key cache (ok spec) = refl
remember_result key cache (err e) = refl

-- A workflow that is not in the cache loads exactly when its base is valid and neither the tenant nor
-- the environment has a file for it, and then it is that base: an override never comes to effect.
pub load_workflow-Bare :
    (files : Files) (name : String) (tenant : Option String) (environment : String) (cache : Cache)
    (spec : WorkflowSpec)
    → get (cache_key name tenant environment) cache ≡ none
    → ((load_workflow files name tenant environment cache).1 ≡ ok spec)
      ↔ Bare files name tenant environment spec
unfolding load_workflow
load_workflow-Bare files name tenant environment cache spec miss =
    let key = cache_key name tenant environment in
    let built = build_workflow files name tenant environment in
    let loads : (load_workflow files name tenant environment cache).1 ≡ built =
      rw (load_workflow, miss) (remember_result key cache built) in
    (
      λ e. build_workflow-Bare files name tenant environment spec (sym loads ∙ e),
      λ h. loads ∙ Bare-build_workflow files name tenant environment spec h,
    )
