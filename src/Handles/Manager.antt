-- ===== src/Handles/Manager.antt =====
-- handles.py: `HandleManager`, for objects of any type. An object is a reference, which `duplicate`
-- copies. Mapped has the mapped files.
use dumpulator.Prelude.{
  ℕ, zero, suc, ◌+◌, ◌*◌, ◌/◌, Bool, true, false, Option, none, some, List, [], ◌∷◌, ◌==◌,
  if◌then◌else◌, is_some, length,
}
use dumpulator.Outcome.{
  assertion_error, type_error, out_of_fuel, Result, ok, raise, Action, pure, gets, reads, modify,
  assert, ◌>>=◌, ◌>>◌,
}

-- An item of a `dict` whose order and size the code or its loops depend on.
pub record Handle (Object : Type 0) : Type 0 where
  pub value : ℕ
  pub object : Object

-- `self._handles.get(value, None)`
unfoldable pub lookup : {Object : Type 0} → ℕ → List (Handle Object) → Option Object
lookup value [] = none
lookup value (h ∷ hs) =
    let rest = lookup value hs in if h.value == value then some h.object else rest

-- `self._handles[value] = object`: a key that is there keeps its place.
unfoldable pub store : {Object : Type 0} → ℕ → Object → List (Handle Object) → List (Handle Object)
store value object [] = record { value = value; object = object } ∷ []
store value object (h ∷ hs) =
    let rest = store value object hs in
    if h.value == value then record { value = value; object = object } ∷ hs else h ∷ rest

-- `del self._handles[value]`
unfoldable pub delete : {Object : Type 0} → ℕ → List (Handle Object) → List (Handle Object)
delete value [] = []
delete value (h ∷ hs) = let rest = delete value hs in if h.value == value then rest else h ∷ rest

module _ (Object : Type 0) where
  pub record HandleManager : Type 0 where
    pub handles : List (Handle Object)
    pub free_handles : List ℕ
    pub base_handle : ℕ
    pub handle_id : ℕ

  -- `__init__`
  abbrev pub new_handles : HandleManager
  new_handles = record { handles = []; free_handles = []; base_handle = 0x100; handle_id = 0 }

  -- `helper` of `__find_free_handle`, for the free handles of the manager
  unfoldable pub next_handle : List ℕ → HandleManager → ℕ × HandleManager
  next_handle [] m = (m.base_handle + 4 * m.handle_id, record m { handle_id = m.handle_id + 1 })
  next_handle (key ∷ keys) m = (key, record m { free_handles = keys })

  -- The loop of `__find_free_handle`.
  unfoldable pub search : (fuel : ℕ) → Action HandleManager ℕ
  unfolding next_handle
  search zero m = (raise out_of_fuel, m)
  search (suc fuel) m =
      let (key, m') = next_handle m.free_handles m in
      let again = search fuel m' in if is_some (lookup key m.handles) then again else (ok key, m')

  -- Each round but the last meets a free handle or one that is taken.
  unfoldable pub find_free_handle : Action HandleManager ℕ
  unfolding search
  find_free_handle m = search (suc (length m.free_handles + length m.handles)) m

  unfoldable pub new : Object → Action HandleManager ℕ
  new handle_data = do
    handle_value ← find_free_handle
    modify (λ m. record m { handles = store handle_value handle_data m.handles })
    pure handle_value

  unfoldable pub add : ℕ → Object → Action HandleManager (Unit {0})
  add handle_value handle_data = do
    m ← gets (λ m. m)
    assert (if is_some (lookup handle_value m.handles) then false else true)
    modify (λ m. record m { handles = store handle_value handle_data m.handles })

  -- `handle_value & ~3`
  abbrev pub without_tag : ℕ → ℕ
  without_tag value = value / 4 * 4

  -- `handle_type` is `None` or the test `isinstance` for a class.
  unfoldable pub get : ℕ → Option (Object → Bool) → HandleManager → Result (Option Object)
  get handle_value handle_type m = elim (lookup (without_tag handle_value) m.handles) [
    | none ↦ ok none
    | some handle_data ↦ elim handle_type [
      | none ↦ ok (some handle_data)
      | some is_instance ↦
          if is_instance handle_data then ok (some handle_data) else raise type_error
    ]
  ]

  unfoldable pub replace : ℕ → Object → Action HandleManager (Unit {0})
  replace handle_value handle_data = do
    m ← gets (λ m. m)
    assert (is_some (lookup (without_tag handle_value) m.handles))
    modify (λ m. record m { handles = store (without_tag handle_value) handle_data m.handles })

  unfoldable pub valid : ℕ → HandleManager → Bool
  valid handle_value m = is_some (lookup handle_value m.handles)

  unfoldable pub close : ℕ → HandleManager → Bool × HandleManager
  unfolding valid
  close handle_value m =
      if valid handle_value m
      then (true, record m { handles = delete handle_value m.handles })
      else (false, m)

  -- `assert handle_value in self._handles.keys()`, then `self._handles[handle_value]`
  unfoldable pub object_at : ℕ → HandleManager → Result Object
  object_at handle_value m = elim (lookup handle_value m.handles) [
    | none ↦ raise assertion_error
    | some handle_data ↦ ok handle_data
  ]

  unfoldable pub duplicate : ℕ → Action HandleManager ℕ
  unfolding object_at
  duplicate handle_value = do
    handle_object ← reads (object_at handle_value)
    new_handle_value ← find_free_handle
    modify (λ m. record m { handles = store new_handle_value handle_object m.handles })
    pure new_handle_value
