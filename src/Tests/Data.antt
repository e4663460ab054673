-- ===== src/Tests/Data.antt =====
-- A shop with one product, one order and a network that answers.
use kreav.Base.{zero, ℕ, suc, none, some, List, [], ◌∷◌, Bool, true}
use kreav.App.{World, ok, err, Exn, PaymentReceivedPayload}
use kreav.Orders.Machine.{OrderStatus}
use kreav.Store.{
  User, Db, Product, ProductStatus, Collaborator, CollaboratorStatus, Order, Settlement,
  SettlementStatus,
}
use kreav.Stellar.Horizon.{StellarConfig, HorizonServer}
use kreav.Stellar.Rpc.{RpcServer, Invocation, Simulation, SendStatus, TxStatus}

abbrev pub product : Product
product = record {
  id = "p1";
  creator_id = "c1";
  title = "Ebook";
  description = none;
  file_url = none;
  price_usd = 1001;
  status = ProductStatus.active;
}

abbrev pub author : Collaborator
author = record {
  product_id = "p1";
  wallet_address = "GA";
  role = "Author";
  revenue_percentage = 6667;
  status = CollaboratorStatus.enabled;
}

abbrev pub editor : Collaborator
editor = record {
  product_id = "p1";
  wallet_address = "GE";
  role = "Editor";
  revenue_percentage = 3333;
  status = CollaboratorStatus.enabled;
}

abbrev pub order_in : OrderStatus → Order
order_in s = record {
  id = "o1";
  product_id = "p1";
  buyer_email = "b@x.io";
  amount_usd = 1001;
  status = s;
  tx_hash = none;
  payment_ref = none;
}

abbrev pub settlement : Settlement
settlement = record {
  order_id = "o1";
  total_amount = 1001;
  tx_hash = "T1";
  status = SettlementStatus.completed;
  recipients = [];
}

abbrev pub ana : User
ana = record {
  id = "c1";
  email = "ana@x.io";
  name = "Ana";
  role = "CREATOR";
  username = some "ana";
  country = none;
  bio = none;
  avatar_emoji = none;
  accent = none;
  created_at = 1;
}

abbrev pub db_with : List Order → List Settlement → Db
db_with orders settlements = record {
  users = ana ∷ [];
  social_links = [];
  custom_links = [];
  featured_products = [];
  products = product ∷ [];
  collaborators = author ∷ editor ∷ [];
  wallets = record { creator_id = "c1"; wallet_address = "GA"; connected_at = 1 } ∷ [];
  orders = orders;
  settlements = settlements;
  withdrawals = [];
}

abbrev pub payload : PaymentReceivedPayload
payload = record {
  order_id = "o1";
  amount_usd = 1001;
  creator_id = "c1";
  wallet_address = some "GA";
  payment_ref = "r1";
}

-- The network counts the transactions that were sent.
abbrev pub world_of : Db → World ℕ
world_of d = record { db = d; events = []; net = 0 }

abbrev pub world_in : OrderStatus → World ℕ
world_in s = world_of (db_with (order_in s ∷ []) [])

abbrev pub config : StellarConfig
config = record {
  usdc_asset_code = "USDC";
  usdc_issuer = "GI";
  platform_wallet_address = "GP";
  platform_key = some "S";
}

abbrev pub horizon : HorizonServer ℕ
horizon = record {
  load_account = λ a n.
      (ok (record { asset_code = "USDC"; asset_issuer = "GI"; balance = 1000000000 } ∷ []), n);
}

abbrev simulated : Bool → Invocation → Simulation
simulated settled (Invocation.settle _ _ _) = Simulation.returned true
simulated settled (Invocation.is_settled_call _) = Simulation.returned settled

-- A network whose contract answers so to `is_settled`, and whose transactions succeed.
abbrev pub rpc_with : Bool → RpcServer ℕ
rpc_with settled = record {
  get_account = λ a n. (ok tt, n);
  simulate_transaction = λ i n. (ok (simulated settled i), n);
  send_transaction = λ i n. (ok (SendStatus.pending, "T1"), suc n);
  get_transaction = λ h n. (ok TxStatus.success, n);
}

-- A contract that has been paid once and refuses a second settlement, behind an RPC server that
-- fails to report a transaction's status.
abbrev refusing : Invocation → ℕ → Simulation
refusing (Invocation.settle _ _ _) zero = Simulation.returned true
refusing (Invocation.settle _ _ _) (suc n) = Simulation.sim_error
refusing (Invocation.is_settled_call _) n = Simulation.returned true

abbrev pub rpc_unread : RpcServer ℕ
rpc_unread = record {
  get_account = λ a n. (ok tt, n);
  simulate_transaction = λ i n. (ok (refusing i n), n);
  send_transaction = λ i n. (ok (SendStatus.pending, "T1"), suc n);
  get_transaction = λ h n. (err Exn.other, n);
}
