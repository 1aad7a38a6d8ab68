-- ===== src/Lib.antt =====
-- ncdn: a small content delivery network in Go. A client asks the DNS server of gslb for www of the
-- zone and gets the address of a point of presence (PoP); there l4lb, an XDP load balancer, sends its
-- packets to one of several cache servers of popcache; a cache server that has no entry asks the
-- server of its tier that owns the key, then the shield tier, then the origin.
--
--   Base, Netip, Float, Types  shared: lists, tests and words over native numbers; the part of
--                     net/netip that the code uses; float64 as a parameter with a strict order; the
--                     records of types/types.go.
--   L4lb.Table        the loops of PopulateLookupTable (l4lb/l4lbdrv/drv.go) over any size of the
--                     table: next_offset is nextOffset, find_slot the probe for a free slot, pass_from
--                     a pass over the destinations, fill the endless loop.
--   L4lb.Driver       the driver (drv.go): populate_lookup_table, health_check_all, sync, new, and
--                     tick for the loop of l4lb/cmd/main.go. The maps of the kernel are a record Ebpf.
--   L4lb.Bindings     MarshalBinary, the counters of the XDP program and XdpRetValToString
--                     (bindings.go, bindings_generated.go).
--   L4lb.Dwarf        the layout check of the XDP object: ReadDWARFStructs (readdwarfstructs.go) and
--                     LbAssertLayout (bindings_generated.go).
--   L4lb.Bind         BindBalancer (bindings.go) in front of the loader, and HealthCheck (drv.go).
--   L4lb.GenBindings  gen_bindings.go, which makes bindings_generated.go of annotated C: the parser, the
--                     template (Template) and the run (Emit).
--   L4lb.Link         the attacher and its watcher (link.go), as steps that interleave with Close.
--   L4lb.Cmd          parseDest of l4lb/cmd/main.go.
--   L4lb.Main         the command l4lb/cmd/main.go over a run of ticks up to a signal, and the calls of
--                     drv.go and bindings.go around it: Close, DumpCounters, PrepSystemForXDP.
--   Gslb.Core         gslb/gslbcore/core.go: new, update_pop_status, update_latency, query and
--                     most_average_pop (getMostAveragePop).
--   Gslb.Run          Run (core.go) and spawnHTTPServer (httpsrv.go): the worker over its rounds.
--   Gslb.Http         the handlers of gslb/gslbcore/httpsrv.go that read that state.
--   Gslb.Rpc          gslb/gslbcore/httprpc.go: fetch_pop_status_over_http and measure_latency, the
--                     sources of what the updates of Gslb.Core store.
--   Gslb.WebUi        types/format.go, and /pops.json and /regions.json of httpsrv.go.
--   Gslb.Handler      gslb/corednsplugin/handler.go: serve_dns (ServeDNS) in front of the core.
--   Gslb.Setup        gslb/corednsplugin/setup.go: the parser of the plugin's block.
--   Gslb.Plugin       the same file and handler.go: the plugin that CoreDNS gets, and its worker.
--   Popcache.Http     headers, requests and responses as popcache/internal uses them.
--   Popcache.Upstream RendezvousSelect, Fetch, Shard, Forward and ByHost of popcache/internal, and the
--                     chains that popcache/cmd/popcache and popcache/cmd/shield build of them.
--   Popcache.Server   the cache, CacheAndFetch and ServeHTTP of popcache/internal; the store is a
--                     heap of objects and a cache of references to them.
--   Popcache.Main     the commands popcache/cmd/popcache (edge_main) and popcache/cmd/shield
--                     (shield_main), from their files on, with the handler that they serve.
--   Popcache.Cluster  running edges and shields and the origins behind them: the stores and the
--                     responses that the steps of several requests, in any order, can lead to.
--   Popcache.Config   ParseBackends of popcache/internal, the table of origins, and the handlers of
--                     /statusz and /latencyz of popcache/cmd.
--   Httprps           httprps/httprps.go: the requests of the last 60 seconds.
--   Prober            prober/main.go: probe and the handler of /probe, which measure_latency calls.
--   Origin.Site, Origin.Categories, Origin.Assets  origin/site.go: the pages of a site, its
--                     categories, its images in the widths of its variants, and load_site.
--   Origin.Workers    the workers of buildAssets (origin/site.go) in any order.
--   Origin.Resize     origin/resize.go, which the site has as a parameter.
--   Origin.Views, Origin.Handlers  origin/handlers.go: what the pages show, the handlers of the three
--                     profiles, and serve, which takes a request to its handler.
--   Origin.Main       the command origin/main.go: the origin of a single page, or that of a site, over
--                     a sequence of requests.
--
-- A module's children hold its proofs, and Tests runs at concrete inputs. An index out of range, a nil
-- dereference and the end of the process are results of the functions that can meet them.
--
-- Bounds. The loops of PopulateLookupTable run without a bound; fill takes as many passes, and find_slot
-- as many probes in a search, as the table has slots. The size, 65537, is a prime and a skip is between 1
-- and 65536, so a probe sequence meets every slot. The loops of the parser in Gslb.Setup have fuel for two
-- more steps than there are tokens, since a step of a loop takes one. 32-bit and 64-bit arithmetic wraps.
--
-- Parameters: the hashes (SipHash, MD5, SHA-256), the maps of the XDP program (L4lb.Driver.Lookup.IsStore
-- has their laws), float64 (Float.IsOrdered), the network, the LRU cache (its laws are FindsLast
-- and Popcache.Cluster.Coherent.IsCache), the controller of caddy (Gslb.Setup.Cursor.Consumes), the
-- functions of miekg/dns on names, the answers of http.DefaultServeMux itself, net.SplitHostPort,
-- strings.Split, net.ParseMAC and the parsers of addresses, netlink
-- (L4lb.Link.Own.IsNetlink), debug/elf and debug/dwarf, regular expressions, JSON
-- (Gslb.Rpc.Probe.IsJson), HTML templates, the decoder and encoder of PNG, and the printing of numbers
-- (Origin.Assets.Derived.IsDecimal).
--
-- Not modelled: the XDP program in C and the loader of cilium/ebpf, the file servers, YAML files, flags
-- and logs, and the listening of the servers. The unsynchronised append in HealthCheckAll is a data
-- race, outside a model of interleavings; the answers are a sequence here. The marking of a cached
-- object after it was stored is one step with the storing.
pub mod Base
pub mod L4lb
pub mod Netip
pub mod Float
pub mod Types
pub mod Gslb
pub mod Popcache
pub mod Httprps
pub mod Origin
pub mod Prober
