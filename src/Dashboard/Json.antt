-- ===== src/Dashboard/Json.antt =====
-- The JSON values that the generators build: Python's `dict`, `list`, `str`, `int`, `float`, `bool`
-- and `None`. A float is a literal of the source, `decimal m k` for m / 10 ^ k.
use openwrt_grafana_monitor.Prelude.{
  Bool, List, Option, String, [], if◌then◌else◌, none, pos, refl, some, ℕ, ℤ, ◌∷◌, ◌≡◌,
}
use openwrt_grafana_monitor.Text.{Text, codes, lookup, text_eq}

mutual
  pub data Json : Type 0 where
    null : Json
    bool : Bool → Json
    int : ℤ → Json
    decimal : ℕ → ℕ → Json
    str : Text → Json
    arr : Items → Json
    obj : Fields → Json

  pub data Items : Type 0 where
    nil : Items
    cons : Json → Items → Items

  pub data Fields : Type 0 where
    end : Fields
    field : Text → Json → Fields → Fields

-- A dictionary while it is built: its entries, oldest first.
abbrev pub Dict : Type 0
Dict = List (Text × Json)

abbrev pub items : List Json → Items
items [] = nil
items (v ∷ vs) = cons v (items vs)

abbrev pub fields : Dict → Fields
fields [] = end
fields ((k, v) ∷ d) = field k v (fields d)

abbrev pub elements : Items → List Json
elements nil = []
elements (cons v vs) = v ∷ elements vs

abbrev pub entries : Fields → Dict
entries end = []
entries (field k v fs) = (k, v) ∷ entries fs

-- `[…]` and `{…}`
abbrev pub list : List Json → Json
list vs = arr (items vs)

abbrev pub dict : Dict → Json
dict d = obj (fields d)

-- An entry, and a text, of a literal.
infix 68 ◌⇒◌
abbrev pub ◌⇒◌ : String → Json → Text × Json
k ⇒ v = (codes k, v)

abbrev pub lit : String → Json
lit s = str (codes s)

abbrev pub number : ℕ → Json
number n = int (pos n)

-- `d[k] = v`
unfoldable pub put : Text → Json → Dict → Dict
unfolding text_eq
put k v [] = (k, v) ∷ []
put k v ((j, w) ∷ d) = if text_eq j k then (j, v) ∷ d else (j, w) ∷ put k v d

-- `d.update(e)`
unfoldable pub update : Dict → Dict → Dict
unfolding put
update d [] = d
update d ((k, v) ∷ e) = update (put k v d) e

-- `x or []`, `x or {}` and `x or ""` for an argument that may be `None`.
abbrev pub or_nil {ℓ} : {A : Type ℓ} → Option (List A) → List A
or_nil none = []
or_nil (some xs) = xs

-- `value[k]` for a value that should be a dictionary; `none` for a missing key or another value
unfoldable pub get : Text → Json → Option Json
unfolding lookup
get k (obj fs) = lookup k (entries fs)
get k _ = none

-- The parts that a walk through a value reads: its texts.
abbrev pub text_of : Json → Option Text
text_of (str s) = some s
text_of _ = none

abbrev pub int_of : Json → Option ℤ
int_of (int n) = some n
int_of _ = none

abbrev pub elements_of : Json → Option (List Json)
elements_of (arr vs) = some (elements vs)
elements_of _ = none

infixl 5 ◌>>=◌
abbrev pub ◌>>=◌ {ℓ κ} : {A : Type ℓ} {B : Type κ} → Option A → (A → Option B) → Option B
none >>= f = none
some a >>= f = f a

-- What a chain that ends with a value went through.
pub bind-some :
    {A B : Type 0} (o : Option A) (f : A → Option B) (b : B)
    → (o >>= f) ≡ some b
    → (a : A) × (o ≡ some a) × (f a ≡ some b)
bind-some none f b h = cc
bind-some (some a) f b h = (a, refl, h)
