-- ===== src/Adaptor/Isolation/Books.antt =====
-- What a deposit writes into the books, while other deposits and withdrawals arrive.
use sns_kongswap_adaptor.Machine.{Machine}
