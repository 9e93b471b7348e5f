-- ===== src/Db/Engine.antt =====
-- The engine of app/db/session.py: how it is made from the database's URL, and its cache.
use text.Mathlib.Text.{starts_with, find?}
use content_approval.Common.{
  String, ◌≡◌, refl, Bool, true, false, not, ◌||◌, Bool-cases, inl, inr, Option, none, some, List,
  [], ◌∷◌, All, if◌then◌else◌,
}

-- What the code gives to `create_async_engine`, and whether it sets the pragma on each connection.
pub record Engine : Type 0 where
  pub url : String
  pub check_same_thread : Option Bool
  pub static_pool : Bool
  pub sets_foreign_keys : Bool

abbrev is_found {ℓ} : {A : Type ℓ} → Option A → Bool
is_found none = false
is_found (some _) = true

-- `database_url.startswith("sqlite")` and `":memory:" in database_url`
abbrev pub is_sqlite : String → Bool
is_sqlite url = starts_with url "sqlite"

abbrev pub is_in_memory : String → Bool
is_in_memory url = is_found (find? url ":memory:")

unfoldable pub create_engine : String → Engine
create_engine url = record {
  url = url;
  check_same_thread = if is_sqlite url then some false else none;
  static_pool = if is_sqlite url then is_in_memory url else false;
  sets_foreign_keys = is_sqlite url;
}

-- `lru_cache` of a function without arguments: the first result is kept.
abbrev pub cached {ℓ} : {A : Type ℓ} → Option A → A → A × Option A
cached none made = (made, some made)
cached (some kept) made = (kept, some kept)

-- `get_engine`, by what the cache holds, with the URL that the settings would give.
unfoldable pub get_engine : String → Option Engine → Engine × Option Engine
get_engine url cache = cached cache (create_engine url)

-- The engines that successive calls return.
unfoldable pub engines : Option Engine → List String → List Engine
unfolding get_engine
engines cache [] = []
engines cache (url ∷ urls) = let (engine, kept) = get_engine url cache in engine ∷ engines kept urls

-- SQLite heeds foreign keys on connections that were told to; every other database always does.
abbrev pub enforces : Engine → Bool
enforces e = not (is_sqlite e.url) || e.sets_foreign_keys

pub create_engine-enforces : (url : String) → enforces (create_engine url) ≡ true
unfolding create_engine
create_engine-enforces url = elim (Bool-cases (is_sqlite url)) [
  | inl lite ↦ rw lite refl
  | inr other ↦ rw other refl
]

abbrev pub IsShared : String → Engine → Type 0
IsShared url e = (e ≡ create_engine url) × (enforces e ≡ true)

engines-kept :
    (url : String) (urls : List String)
    → All (IsShared url) (engines (some (create_engine url)) urls)
unfolding engines get_engine
engines-kept url [] = tt
engines-kept url (_ ∷ urls) = ((refl, create_engine-enforces url), engines-kept url urls)

-- All calls of get_engine in a process, whatever URL the settings would give later, return the engine
-- that was made for the URL of the first, and that engine enforces the foreign keys: it is not one of
-- SQLite, or it sets the pragma on its connections.
pub engines-IsShared :
    (url : String) (urls : List String) → All (IsShared url) (engines none (url ∷ urls))
unfolding engines get_engine
engines-IsShared url urls = ((refl, create_engine-enforces url), engines-kept url urls)
