-- ===== src/Tests/Reads.antt =====
-- Ana looks at her orders, her wallet and her dashboard.
use kreav.Base.{
  ℕ, ◌+◌, ◌*◌, ◌≤◌, String, some, List, [], ◌∷◌, ◌≡◌, ◌⊎◌, length, refl, arith, eq_iff, page_of,
  sum_by, keep,
}
use kreav.Base.Int.{pos}
use kreav.App.{World, ok, err, not_found}
use kreav.Orders.Machine.{OrderStatus}
use kreav.Orders.Reads.{find_one}
use kreav.Orders.Reads.Laws.{Owned, find_one-cases}
use kreav.Products.Reads.{find_one as find_one_product}
use kreav.Store.Table.{find_by}
use kreav.Store.{Order, Product, RecipientType, SettlementStatus}
use kreav.Store.Query.{find_settlement, find_wallet}
use kreav.Wallets.History.{
  RecipientRow, get_transactions, history_page, history, get_transactions-page,
  get_transactions-total, least, settlements_of, withdrawals_of,
}
use kreav.Analytics.{Dated, settled_stats, revenue_series_of}
use kreav.Analytics.Series.{series_sum, dated_amount, is_counted, revenue_series_of-sum}
use kreav.Tests.Data.{world_in, order_in}

abbrev shop : World ℕ
shop = world_in OrderStatus.settled

find_one-cases_example :
    let x = find_one "o1" (some "c1") shop in
    ((o : Order) × (p : Product) × Owned "o1" "c1" shop.db o p
      × (x ≡ (
        ok (record { order = o; product = p; settlement = find_settlement o.id shop.db }),
        shop,
      )))
    ⊎ (¬ ((o : Order) × (p : Product) × Owned "o1" "c1" shop.db o p) × (x ≡ (err not_found, shop)))
find_one-cases_example = find_one-cases "o1" "c1" shop (λ e. ground (arith, e, eq_iff "c1" ""))

abbrev row : String → ℕ → RecipientRow
row id at = record {
  id = id;
  wallet_address = "GA";
  recipient_type = RecipientType.creator;
  role = "Author";
  percentage = 6667;
  amount = pos 63;
  order_id = "o1";
  tx_hash = "T1";
  total_amount = 100;
  status = SettlementStatus.completed;
  created_at = at;
}

abbrev rows : List RecipientRow
rows = row "r1" 1 ∷ row "r2" 5 ∷ row "r3" 3 ∷ []

get_transactions-page_example :
    (get_transactions "GA" 2 1 rows shop ≡ (ok (history_page "GA" 2 1 rows shop.db), shop))
    × ((history_page "GA" 2 1 rows shop.db).data_rows ≡ page_of 2 1 (history "GA" rows shop.db))
get_transactions-page_example = get_transactions-page "GA" 2 1 rows shop (omega arith)

get_transactions-total_example :
    (history_page "GA" 1 1 rows shop.db).total
    ≡ least (1 * 1 * 2) (length (settlements_of "GA" rows))
      + least (1 * 1 * 2) (length (withdrawals_of (find_wallet "GA" shop.db) shop.db))
get_transactions-total_example = get_transactions-total "GA" 1 1 rows shop.db

abbrev dated : List Dated
dated = record { order = order_in OrderStatus.settled; created_at = 5 } ∷ []

revenue_series_of-sum_example :
    (series_sum (revenue_series_of "c1" 9 dated shop.db)
      ≡ sum_by dated_amount (keep (is_counted "c1" shop.db 9) dated))
    × (series_sum (revenue_series_of "c1" 9 dated shop.db) ≤ (settled_stats "c1" shop.db).0)
    × (length (revenue_series_of "c1" 9 dated shop.db) ≡ 30)
revenue_series_of-sum_example = revenue_series_of-sum "c1" 9 dated shop.db refl

find_product_missing : find_one_product "p9" shop ≡ (err not_found, shop)
unfolding find_one_product find_by
find_product_missing = refl
