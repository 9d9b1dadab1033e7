-- ===== src/Patricia/Index/Act.antt =====
-- The operations of the index that write pages: each is given the node store and leaves it changed,
-- with the result, also where that is an error.
use minweight_store_cpp.Base.{ℕ, none, some, get_or, set, ◌≡◌, ap, ◌∙◌}
use minweight_store_cpp.Patricia.Status.{Result, ok, err, stuck, StatusCode}
use minweight_store_cpp.Patricia.Page.{NodePage}
use minweight_store_cpp.Patricia.Nodes.{HeapNodeStore, free_node}

abbrev pub Act {ℓ} : Type ℓ → Type ℓ
Act A = HeapNodeStore → HeapNodeStore × Result A

-- What follows an action whose outcome is known.
abbrev pub follow {ℓ κ} :
    {A : Type ℓ} {B : Type κ} → HeapNodeStore × Result A → (A → Act B) → HeapNodeStore × Result B
follow (nodes, ok a) f = f a nodes
follow (nodes, err e) f = (nodes, err e)
follow (nodes, stuck) f = (nodes, stuck)

infixl 5 ◌>>=◌ ◌>>◌
abbrev pub ◌>>=◌ {ℓ κ} : {A : Type ℓ} {B : Type κ} → Act A → (A → Act B) → Act B
(m >>= f) nodes = follow (m nodes) f

abbrev pub ◌>>◌ {ℓ} : {B : Type ℓ} → Act (Unit {0}) → Act B → Act B
m >> k = m >>= λ _. k

abbrev pub give {ℓ} : {A : Type ℓ} → A → Act A
give a nodes = (nodes, ok a)

abbrev pub fail {ℓ} : {A : Type ℓ} → StatusCode → Act A
fail e nodes = (nodes, err e)

-- A computation that reads no page, and one that reads them.
abbrev pub pure {ℓ} : {A : Type ℓ} → Result A → Act A
pure r nodes = (nodes, r)

abbrev pub reads {ℓ} : {A : Type ℓ} → (HeapNodeStore → Result A) → Act A
reads f nodes = (nodes, f nodes)

-- What a page pointer points to. A freed page is gone.
abbrev pub page_at : HeapNodeStore → ℕ → Result NodePage
page_at nodes id = elim (get_or nodes.nodes id none) [ none ↦ stuck | some page ↦ ok page ]

abbrev pub set_page : HeapNodeStore → ℕ → NodePage → HeapNodeStore
set_page nodes id page = record nodes { nodes = set nodes.nodes id (some page) }

-- A write through a page pointer.
abbrev pub write_page : ℕ → NodePage → Act (Unit {0})
write_page id page nodes = (set_page nodes id page, ok tt)

-- `FreeNode`
abbrev pub free_at : ℕ → Act (Unit {0})
free_at id nodes = free_node nodes id

-- An action that succeeds is followed by the next one, on the store that it leaves.
pub follow_ok {ℓ κ} :
    {A : Type ℓ} {B : Type κ} {x : HeapNodeStore × Result A} {nodes : HeapNodeStore} {a : A}
    {r : HeapNodeStore × Result B} (f : A → Act B)
    → x ≡ (nodes, ok a)
    → f a nodes ≡ r
    → follow x f ≡ r
follow_ok f e h = ap (λ x. follow x f) e ∙ h

-- The same where the action reads.
pub read_ok {ℓ κ} :
    {A : Type ℓ} {B : Type κ} {r : Result A} {a : A} {s : HeapNodeStore × Result B}
    (nodes : HeapNodeStore) (f : A → Act B)
    → r ≡ ok a
    → f a nodes ≡ s
    → follow (nodes, r) f ≡ s
read_ok nodes f e h = ap (λ x. follow (nodes, x) f) e ∙ h
