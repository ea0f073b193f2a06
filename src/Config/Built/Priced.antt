-- ===== src/Config/Built/Priced.antt =====
-- client/context/context.go and client/config/client.go against utils/chain/tx_utils.go: the prices of a
-- configuration that was built.
