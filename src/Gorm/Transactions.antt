-- ===== src/Gorm/Transactions.antt =====
-- internal/adapter/repo/gorm: context.go and tx_manager.go. A context is known by the database of the
-- transaction that it carries, if any.
use clawvival.Base.{◌≡◌, Option, none, some}

unfoldable pub with_tx : {D : Type 0} → Option D → D → Option D
with_tx ctx tx = some tx

unfoldable pub get_db_from_ctx : {D : Type 0} → Option D → D → D
get_db_from_ctx none base = base
get_db_from_ctx (some tx) base = tx

-- `RunInTx`, by the library's `Transaction` on a database. It starts from the manager's database
-- also where the context carries a transaction.
unfoldable pub run_in_tx : {D R : Type 0} → (D → (D → R) → R) → D → Option D → (Option D → R) → R
unfolding with_tx
run_in_tx transaction db ctx fn = transaction db (λ tx. fn (with_tx ctx tx))

-- A repository that a transaction's function calls uses the transaction, whatever its own database
-- is, where the library runs the function on the transaction that it began.
run_in_tx-uses :
    {D R : Type 0} (transaction : D → (D → R) → R) (db tx base : D) (ctx : Option D) (query : D → R)
    → ((f : D → R) → transaction db f ≡ f tx)
    → run_in_tx transaction db ctx (λ inner. query (get_db_from_ctx inner base)) ≡ query tx
unfolding run_in_tx get_db_from_ctx with_tx
run_in_tx-uses transaction db tx base ctx query begins =
    begins (λ t. query (get_db_from_ctx (with_tx ctx t) base))
