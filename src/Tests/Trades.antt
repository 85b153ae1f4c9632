-- ===== src/Tests/Trades.antt =====
-- bob buys five gold for ten coins.
use shadowyapparatus.Prelude.{
  Bytes, ◌≤◌, ◌+◌, ◌≡◌, refl, arith, none, some, [], ◌∷◌, bytes, bytes_discrete, ℕ_discrete, add64,
  sub64,
}
use shadowyapparatus.Dict.{lookup, insert, erase, bytes_key}
use shadowyapparatus.Dict.Sum.{sum}
use shadowyapparatus.Token.{TradeOfferData, TokenOpType, TokenOperation}
use shadowyapparatus.TokenState.{
  TokenState, Write, already_exists, balance, save, create_snapshot, save_state_with_snapshot,
}
use shadowyapparatus.TokenState.Queries.{get_token_balance, get_token_info}
use shadowyapparatus.TokenState.Operations.{transfer_token, transfer_at, moved}
use shadowyapparatus.TokenState.Validity.{IsValid}
use shadowyapparatus.Validation.Swaps.{shadow}
use shadowyapparatus.Executor.Monad.{done, failed, state_error}
use shadowyapparatus.Executor.Results.{TokenOpResult, op_result}
use shadowyapparatus.Executor.Pools.{move_token}
use shadowyapparatus.Executor.Trades.{
  checked_transfer, pay_offer, destroy_offer, offer_with, trade_with, execute_trade_execute,
}
use shadowyapparatus.Executor.Escrow.{offer_loses_goods}
use shadowyapparatus.Executor.Settlement.{trade_settles}
use shadowyapparatus.Tests.Data.{apart, alice, bob, coin, gold, token, disk}

abbrev nft : Bytes
nft = bytes "nft"

abbrev offer : TradeOfferData
offer = record {
  locked_token_id = gold;
  locked_amount = 5;
  asking_price = 10;
  asking_token_id = coin;
  seller = alice;
  expiration_time = 0;
  creation_time = 0;
}

abbrev offered : TokenState
offered = record {
  tokens =
      (coin, token 10 1)
      ∷ (gold, token 5 1)
      ∷ (nft, record (token 1 10000000) { trade_offer = some offer })
      ∷ [];
  balances = (coin, (bob, 10) ∷ []) ∷ (gold, (nft, 5) ∷ []) ∷ (nft, (alice, 1) ∷ []) ∷ [];
  locked_shadow = (coin, 10) ∷ (gold, 5) ∷ (nft, 10000000) ∷ [];
  disk = disk Write.written;
}

offered-IsValid : IsValid offered
unfolding lookup sum
offered-IsValid id = ground arith

abbrev buying : TokenOperation
buying = record {
  op_type = TokenOpType.trade_execute;
  token_id = nft;
  op_amount = 1;
  from = bob;
  to = [];
  metadata = none;
}

abbrev bought : TokenOpResult
bought = op_result 0 buying bob alice 0 0

trade_is_done : (trade_with buying offer 0 offered).0 ≡ done bought
unfolding trade_with pay_offer checked_transfer destroy_offer move_token get_token_balance balance
    lookup insert erase transfer_token transfer_at moved save create_snapshot
    save_state_with_snapshot add64 sub64 bytes_discrete ℕ_discrete
trade_is_done = refl

execute_finds_offer : execute_trade_execute buying 0 offered ≡ trade_with buying offer 0 offered
unfolding execute_trade_execute get_token_info lookup bytes_discrete ℕ_discrete
execute_finds_offer = refl

traded : trade_with buying offer 0 offered ≡ (done bought, (trade_with buying offer 0 offered).1)
traded = λ i. (trade_is_done i, (trade_with buying offer 0 offered).1)

trade_settles_example :
    let t = (trade_with buying offer 0 offered).1 in
    (balance coin alice t ≡ balance coin alice offered + 10)
    × (balance coin bob t + 10 ≡ balance coin bob offered)
    × (balance gold bob t ≡ balance gold bob offered + 5)
    × (balance gold nft t + 5 ≡ balance gold nft offered)
unfolding bytes_discrete ℕ_discrete
trade_settles_example =
    trade_settles buying offer 0 bought offered (trade_with buying offer 0 offered).1
      offered-IsValid (apart bob alice refl) (apart nft bob refl)
      (apart alice (bytes "BURNED") refl) (apart coin [] refl) (apart coin shadow refl)
      (apart gold shadow refl) traded (apart gold coin refl) (apart nft gold refl)
      (apart nft coin refl)

-- An offer of five gold under the identifier of the coins, by an address that has them.
abbrev second_offer : TradeOfferData
second_offer = record offer { seller = nft }

abbrev clashing : TokenOperation
clashing = record buying { op_type = TokenOpType.trade_offer; token_id = coin; from = nft }

gold_known : lookup gold offered.tokens ≡ some (token 5 1)
unfolding lookup bytes_discrete ℕ_discrete
gold_known = refl

gold_enough : 5 ≤ balance gold nft offered
unfolding balance lookup bytes_discrete ℕ_discrete
gold_enough = omega arith

coin_taken : lookup coin offered.tokens ≡ some (token 10 1)
unfolding lookup bytes_discrete ℕ_discrete
coin_taken = refl

offer_loses_goods_example :
    let r = offer_with clashing (token 1 1) second_offer 0 offered in
    (r.0 ≡ failed (state_error already_exists))
    × (balance gold nft r.1 + 5 ≡ balance gold nft offered)
    × (balance gold coin r.1 ≡ balance gold coin offered + 5)
unfolding bytes_discrete ℕ_discrete
offer_loses_goods_example =
    offer_loses_goods clashing (token 1 1) (token 10 1) second_offer 0 offered offered-IsValid
      (apart gold shadow refl) (apart nft coin refl) (token 5 1) gold_known gold_enough refl
      coin_taken
